-- ===== src/External.antt =====
-- What the stack uses of the crates `embassy-sync`, `heapless` and
-- `intrusive_collections`, which are not in the repository:
-- their types and operations are parameters, and the documented behaviour that the code relies on is
-- a record of laws.
use emcyphal.Common.{ℕ, ◌≤◌, ◌<◌, ◌≡◌, List, [], ◌∷◌, ◌++◌, ◌==◌, Bool, Option, none, some, length}
use mathlib.Core.List.{reverse}
use emcyphal.Time.{Clock}
use emcyphal.Buffer.Owned.{count}

-- `embassy_sync::waitqueue::WakerRegistration`. `wake` returns what the registration becomes.
pub record Wakers : Type 1 where
  pub Waker : Type 0
  pub Registration : Type 0
  pub new : Registration
  pub register : Registration → Waker → Registration
  pub wake : Registration → Registration

-- `heapless::Vec<u8, N>`: at most `n` bytes. `push` fails on a full vector, `pop` on an empty one,
-- and `collect` panics on too many; `contents` shows the last element first.
pub record Vecs : Type 1 where
  pub Vec : ℕ → Type 0
  pub contents : (n : ℕ) → Vec n → List ℕ
  pub collect : (n : ℕ) → List ℕ → Option (Vec n)
  pub push : (n : ℕ) → Vec n → ℕ → Option (Vec n)
  pub pop : (n : ℕ) → Vec n → Option (ℕ × Vec n)

pub record IsStack (v : Vecs) : Type 0 where
  pub collect_lem :
      (n : ℕ) (xs : List ℕ)
      → length xs ≤ n
      → (r : v.Vec n) × (v.collect n xs ≡ some r) × (v.contents n r ≡ reverse xs)
  pub push_room :
      (n : ℕ) (r : v.Vec n) (x : ℕ)
      → length (v.contents n r) < n
      → (r' : v.Vec n) × (v.push n r x ≡ some r') × (v.contents n r' ≡ x ∷ v.contents n r)
  pub pop_nil : (n : ℕ) (r : v.Vec n) → v.contents n r ≡ [] → v.pop n r ≡ none
  pub pop_cons :
      (n : ℕ) (r : v.Vec n) (x : ℕ) (xs : List ℕ)
      → v.contents n r ≡ x ∷ xs
      → (r' : v.Vec n) × (v.pop n r ≡ some (x, r')) × (v.contents n r' ≡ xs)

-- `intrusive_collections::LinkedList`, with elements named by their addresses. `remove` takes the
-- element out at which a cursor is made from its address, which stands in one place; `contents` shows the list from the front.
pub record LinkedLists : Type 1 where
  pub Linked : Type 0
  pub contents : Linked → List ℕ
  pub empty : Linked
  pub front : Linked → Option ℕ
  pub push_back : Linked → ℕ → Linked
  pub remove : Linked → ℕ → Option Linked
  pub is_empty : Linked → Bool

pub record IsLinkedList (v : LinkedLists) : Type 0 where
  pub empty_lem : v.contents v.empty ≡ []
  pub front_nil : (l : v.Linked) → v.contents l ≡ [] → v.front l ≡ none
  pub front_cons : (l : v.Linked) (x : ℕ) (xs : List ℕ) → v.contents l ≡ x ∷ xs → v.front l ≡ some x
  pub push_back_lem :
      (l : v.Linked) (x : ℕ) → v.contents (v.push_back l x) ≡ v.contents l ++ (x ∷ [])
  pub remove_lem :
      (l : v.Linked) (xs ys : List ℕ) (x : ℕ)
      → v.contents l ≡ xs ++ (x ∷ ys)
      → count x (v.contents l) ≡ 1
      → (l' : v.Linked) × (v.remove l x ≡ some l') × (v.contents l' ≡ xs ++ ys)
  pub is_empty_lem : (l : v.Linked) → v.is_empty l ≡ (length (v.contents l) == 0)

pub record Platform : Type 1 where
  pub clock : Clock
  pub wakers : Wakers
  pub vecs : Vecs
