-- ===== src/Utils/MultiClassQueue/Writes.antt =====
-- emcyphal/src/utils/multi_class_queue.rs: what the assignments of `MultiCycleList` leave in the
-- links, where the nodes are in range.
use emcyphal.Common.{
  ℕ, ◌<◌, ◌≡◌, refl, ap, ◌∙◌, inl, inr, Bool, true, false, Bool-cases, Option, some, ◌==◌, ==_iff,
  if◌then◌else◌,
}
use emcyphal.Utils.DuplexArray.{updated, get_lem, put_lem}
use emcyphal.Utils.MultiClassQueue.{
  Node, MultiCycleList, set_next, set_prev, next, prev, unbind, move_after, move_before, ◌>>=◌,
}

abbrev pub next_of : MultiCycleList → ℕ → ℕ
next_of l k = (l.elems k).next

abbrev pub prev_of : MultiCycleList → ℕ → ℕ
prev_of l k = (l.elems k).prev

with_next : MultiCycleList → ℕ → ℕ → MultiCycleList
with_next l i v = updated l i (record (l.elems i) { next = v })

with_prev : MultiCycleList → ℕ → ℕ → MultiCycleList
with_prev l i v = updated l i (record (l.elems i) { prev = v })

-- The list after `unbind`, and after the four assignments of a move.
pub unbound : MultiCycleList → ℕ → MultiCycleList
unbound l e =
    let n = next_of l e in
    let p = prev_of l e in with_next (with_prev (with_next (with_prev l e e) e e) n p) p n

pub bound : MultiCycleList → ℕ → ℕ → ℕ → MultiCycleList
bound l e p n = with_next (with_prev (with_prev (with_next l e n) e p) n e) p e

-- A successful step of a chain.
pub bind_lem {ℓ κ} :
    {A : Type ℓ} {B : Type κ} {m : Option A} {a : A} (f : A → Option B)
    → m ≡ some a
    → (m >>= f) ≡ f a
bind_lem f e = ap (λ m. m >>= f) e

field-if :
    (f : Node → ℕ) (c : Bool) (a b : Node) → f (if c then a else b) ≡ (if c then f a else f b)
field-if f true a b = refl
field-if f false a b = refl

same-if : (g : ℕ → ℕ) (i k : ℕ) → (if i == k then g i else g k) ≡ g k
same-if g i k = elim (Bool-cases (i == k)) [
  | inl e ↦ ap (λ c. if c then g i else g k) e ∙ ap g ((==_iff i k).0 e)
  | inr e ↦ ap (λ c. if c then g i else g k) e
]

module _ (l : MultiCycleList) (i v : ℕ) where
  next-with_next : (k : ℕ) → next_of (with_next l i v) k ≡ (if i == k then v else next_of l k)
  unfolding with_next
  next-with_next k = field-if (λ n. n.next) (i == k) _ _

  next-with_prev : (k : ℕ) → next_of (with_prev l i v) k ≡ next_of l k
  unfolding with_prev
  next-with_prev k = field-if (λ n. n.next) (i == k) _ _ ∙ same-if (next_of l) i k

  prev-with_prev : (k : ℕ) → prev_of (with_prev l i v) k ≡ (if i == k then v else prev_of l k)
  unfolding with_prev
  prev-with_prev k = field-if (λ n. n.prev) (i == k) _ _

  prev-with_next : (k : ℕ) → prev_of (with_next l i v) k ≡ prev_of l k
  unfolding with_next
  prev-with_next k = field-if (λ n. n.prev) (i == k) _ _ ∙ same-if (prev_of l) i k

  set_next_lem : i < l.size → set_next l i v ≡ some (with_next l i v)
  unfolding set_next with_next
  set_next_lem h = rw (set_next, get_lem l i h) (put_lem l i _ h)

  set_prev_lem : i < l.size → set_prev l i v ≡ some (with_prev l i v)
  unfolding set_prev with_prev
  set_prev_lem h = rw (set_prev, get_lem l i h) (put_lem l i _ h)

  size-with_next : (with_next l i v).size ≡ l.size
  unfolding with_next
  size-with_next = refl

  size-with_prev : (with_prev l i v).size ≡ l.size
  unfolding with_prev
  size-with_prev = refl

module _ (l : MultiCycleList) where
  pub next_lem : (i : ℕ) → i < l.size → next l i ≡ some (next_of l i)
  unfolding next
  next_lem i h = rw (next, get_lem l i h)

  pub prev_lem : (i : ℕ) → i < l.size → prev l i ≡ some (prev_of l i)
  unfolding prev
  prev_lem i h = rw (prev, get_lem l i h)

ruleset links =
    (next-with_next, next-with_prev, prev-with_next, prev-with_prev, size-with_next, size-with_prev)

module _ (l : MultiCycleList) (e : ℕ) where
  pub next-unbound :
      (k : ℕ)
      → next_of (unbound l e) k
        ≡ (if prev_of l e == k then next_of l e else if e == k then e else next_of l k)
  unfolding unbound
  next-unbound k = simp links

  pub prev-unbound :
      (k : ℕ)
      → prev_of (unbound l e) k
        ≡ (if next_of l e == k then prev_of l e else if e == k then e else prev_of l k)
  unfolding unbound
  prev-unbound k = simp links

  pub next-bound :
      (p n k : ℕ)
      → next_of (bound l e p n) k ≡ (if p == k then e else if e == k then n else next_of l k)
  unfolding bound
  next-bound p n k = simp links

  pub prev-bound :
      (p n k : ℕ)
      → prev_of (bound l e p n) k ≡ (if n == k then e else if e == k then p else prev_of l k)
  unfolding bound
  prev-bound p n k = simp links

  pub size-unbound : (unbound l e).size ≡ l.size
  unfolding unbound
  size-unbound = simp links

  pub size-bound : (p n : ℕ) → (bound l e p n).size ≡ l.size
  unfolding bound
  size-bound p n = simp links

  module _ (he : e < l.size) where
    pub unbind_lem : next_of l e < l.size → prev_of l e < l.size → unbind l e ≡ some (unbound l e)
    unfolding unbind unbound
    unbind_lem hn hp =
        bind_lem _ (next_lem l e he)
        ∙ bind_lem _ (prev_lem l e he)
        ∙ bind_lem _ (set_prev_lem l e e he)
        ∙ bind_lem _ (set_next_lem _ e e (simp links he))
        ∙ bind_lem _ (set_prev_lem _ (next_of l e) _ (simp links hn))
        ∙ set_next_lem _ (prev_of l e) _ (simp links hp)

    pub bind_all :
        (p n : ℕ)
        → p < l.size
        → n < l.size
        → (set_next l e n >>= λ a. set_prev a e p >>= λ b. set_prev b n e >>= λ c. set_next c p e)
          ≡ some (bound l e p n)
    unfolding bound
    bind_all p n hp hn =
        bind_lem _ (set_next_lem l e n he)
        ∙ bind_lem _ (set_prev_lem _ e p (simp links he))
        ∙ bind_lem _ (set_prev_lem _ n e (simp links hn))
        ∙ set_next_lem _ p e (simp links hp)

-- Moves, where the neighbours are in range before and after the entry is unbound.
module _ (l : MultiCycleList) (e : ℕ) (he : e < l.size) (hn : next_of l e < l.size)
    (hp : prev_of l e < l.size) where
  pub move_after_lem :
      (p : ℕ)
      → p < l.size
      → next_of (unbound l e) p < l.size
      → move_after l e p ≡ some (bound (unbound l e) e p (next_of (unbound l e) p))
  unfolding move_after
  move_after_lem p hp' hn' =
      let size = size-unbound l e in
      bind_lem _ (unbind_lem l e he hn hp)
      ∙ bind_lem _ (next_lem (unbound l e) p (rw size hp'))
      ∙ bind_all (unbound l e) e (rw size he) p (next_of (unbound l e) p) (rw size hp')
          (rw size hn')

  pub move_before_lem :
      (n : ℕ)
      → n < l.size
      → prev_of (unbound l e) n < l.size
      → move_before l e n ≡ some (bound (unbound l e) e (prev_of (unbound l e) n) n)
  unfolding move_before
  move_before_lem n hn' hp' =
      let size = size-unbound l e in
      bind_lem _ (unbind_lem l e he hn hp)
      ∙ bind_lem _ (prev_lem (unbound l e) n (rw size hn'))
      ∙ bind_all (unbound l e) e (rw size he) (prev_of (unbound l e) n) n (rw size hp')
          (rw size hn')
