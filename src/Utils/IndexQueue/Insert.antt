-- ===== src/Utils/IndexQueue/Insert.antt =====
-- emcyphal/src/utils/index_queue.rs, `insert`: what `get` gives afterwards.
use emcyphal.Common.{
  ℕ, ◌+◌, ◌<◌, ◌≤◌, ◌≡◌, ◌≢◌, ap, ◌∙◌, false, List, ◌∷◌, none, some, ltb, ◌==◌, ==_refl,
  if◌then◌else◌, arith,
}
use emcyphal.Buffer.Owned.{count}
use emcyphal.Utils.DuplexArray
use emcyphal.Utils.DuplexArray.{DuplexArray, updated, get_lem, put_lem}
use emcyphal.Utils.MultiClassQueue.{◌>>=◌}
use emcyphal.Utils.MultiClassQueue.Rings.{Classes}
use emcyphal.Utils.MultiClassQueue.Shows.{Shows, head, front_lem, remove-Shows}
use emcyphal.Utils.MultiClassQueue.Writes.{bind_lem}
use emcyphal.Utils.IndexQueue.{
  IndexQueue, ok, class_count, free_class, no_entry, get_index, get, insert,
}

module _ {V : Type 0} {k_max n : ℕ} where
  -- The arrays have their declared sizes.
  pub record Sized (s : IndexQueue V k_max n) : Type 0 where
    pub keys : s.keys.size ≡ n
    pub values : s.values.size ≡ n
    pub index : s.index.size ≡ 1 + k_max

  pub get_index_lem :
      (s : IndexQueue V k_max n) (key : ℕ)
      → Sized s
      → key ≤ k_max
      → get_index s key
        ≡ some (if s.index.elems key == no_entry then none else some (s.index.elems key))
  unfolding get_index
  get_index_lem s key z h =
      let size = z.index in
      let within : ltb k_max key ≡ false = ground (arith, h) in
      ap
        (λ b.
          if b
          then some none
          else (DuplexArray.get s.index key >>= λ idx.
              some (if idx == no_entry then none else some idx)))
        within
      ∙ bind_lem _ (get_lem s.index key (omega (arith, size, h)))

  module _ (s : IndexQueue V k_max n) (key : ℕ) (value : V) (z : Sized s) (h : key ≤ k_max) where
    -- Where the arrays have their sizes, an insertion of a key that is in the map, at an entry
    -- with a value, gives that value back; a `get` of the key in the state after it panics, so
    -- the new value is not stored.
    pub insert-present :
        (idx : ℕ) (old : V)
        → s.index.elems key ≡ idx
        → idx < n
        → idx ≢ no_entry
        → s.values.elems idx ≡ some old
        → (s' : IndexQueue V k_max n) × (insert s key value ≡ some (s', ok (some old)))
          × (get s' key ≡ none)
    unfolding insert get
    insert-present idx old at inside used held =
        let size = z.values in
        let other : (s.index.elems key == no_entry) ≡ false = ground (arith, at, used) in
        let within : ltb k_max key ≡ false = ground (arith, h) in
        let known =
          ap (λ b. some (if b then none else some (s.index.elems key))) other
          ∙ ap (λ i. some (some i)) at in
        let found = get_index_lem s key z h ∙ known in
        let emptied = updated s.values idx none in
        let s' : IndexQueue V k_max n = record s { values = emptied } in
        let found_later =
          get_index_lem s' key (record { keys = z.keys; values = size; index = z.index }) h
          ∙ known in
        (
          s',
          rw (insert, within)
              (bind_lem _ found
                ∙ bind_lem _ (get_lem s.values idx (omega (arith, size, inside)) ∙ ap some held)
                ∙ bind_lem _ (put_lem s.values idx none (omega (arith, size, inside)))),
          bind_lem _ found_later
              ∙ bind_lem _ (
                  get_lem emptied idx (omega (arith, size, inside))
                  ∙ ap (λ b. some (if b then none else s.values.elems idx)) (==_refl idx)),
        )

    -- Where the arrays have their sizes, the queue of entries stands for lists of them and one is
    -- free, an insertion of a key of at most `K_MAX` that is not in the map gives nothing back,
    -- and a `get` of the key in the state after it gives the value.
    pub insert-absent :
        (classes : Classes) (idx : ℕ) (rest : List ℕ)
        → Shows class_count n s.queue classes
        → s.index.elems key ≡ no_entry
        → classes free_class ≡ idx ∷ rest
        → (s' : IndexQueue V k_max n) × (insert s key value ≡ some (s', ok none))
          × (get s' key ≡ some (some value))
    unfolding insert get
    insert-absent classes idx rest v at free =
        let sizes = z.values in
        let sizek = z.keys in
        let sizei = z.index in
        let fits = v.fits in
        let inside : idx < n =
          v.rings.placed.inside free_class idx (omega arith)
            (ground (arith, ap (count idx) free, ==_refl idx)) in
        let within : ltb k_max key ≡ false = ground (arith, h) in
        let missing : get_index s key ≡ some none =
          get_index_lem s key z h ∙ ap (λ i. some (if i == no_entry then none else some i)) at in
        let (queue, e, w) = remove-Shows class_count n s.queue classes v idx inside in
        let known = updated s.index key idx in
        let real : (idx == no_entry) ≡ false = ground (arith, fits, inside) in
        let s' : IndexQueue V k_max n = record {
          keys = updated s.keys idx (some key);
          values = updated s.values idx (some value);
          index = known;
          queue = queue;
        } in
        let found : get_index s' key ≡ some (some idx) =
          get_index_lem s' key (record { keys = sizek; values = sizes; index = sizei }) h
          ∙ ap
              (λ b.
                let i = if b then idx else s.index.elems key in
                some (if i == no_entry then none else some i))
              (==_refl key)
          ∙ ap (λ b. some (if b then none else some idx)) real in
        (
          s',
          rw (insert, within)
              (bind_lem _ missing
                ∙ bind_lem _ (
                    front_lem class_count n s.queue classes v free_class (omega arith)
                    ∙ ap (λ l. some (head l)) free)
                ∙ bind_lem _ e
                ∙ bind_lem _ (put_lem s.keys idx (some key) (omega (arith, sizek, inside)))
                ∙ bind_lem _ (put_lem s.values idx (some value) (omega (arith, sizes, inside)))
                ∙ bind_lem _ (put_lem s.index key idx (omega (arith, sizei, h)))),
          bind_lem _ found
              ∙ bind_lem _ (
                  get_lem (updated s.values idx (some value)) idx (omega (arith, sizes, inside))
                  ∙ ap (λ b. some (if b then some value else s.values.elems idx)) (==_refl idx)),
        )
