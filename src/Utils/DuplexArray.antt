-- ===== src/Utils/DuplexArray.antt =====
-- emcyphal/src/utils/stacked_array.rs, `DuplexArray`: two arrays that are one slice. An array is its
-- number of elements and what stands at each index; indexing past the end panics, here `none`.
use emcyphal.Common.{ℕ, ◌+◌, ◌<◌, ◌≡◌, Option, none, some, ltb, lt→ltb, ◌==◌, if◌then◌else◌}

pub record DuplexArray {ℓ} (T : Type ℓ) : Type ℓ where
  pub size : ℕ
  pub elems : ℕ → T

module _ {ℓ} {T : Type ℓ} where
  abbrev pub from_fn : ℕ → ℕ → (ℕ → T) → DuplexArray T
  from_fn n1 n2 cb = record { size = n1 + n2; elems = cb }

  abbrev pub repeat : ℕ → ℕ → T → DuplexArray T
  repeat n1 n2 val = record { size = n1 + n2; elems = λ _. val }

  unfoldable pub get : DuplexArray T → ℕ → Option T
  get a i = if ltb i a.size then some (a.elems i) else none

  -- What is left once an element is overwritten.
  abbrev pub updated : DuplexArray T → ℕ → T → DuplexArray T
  updated a i v = record a { elems = λ k. if i == k then v else a.elems k }

  unfoldable pub put : DuplexArray T → ℕ → T → Option (DuplexArray T)
  put a i v = if ltb i a.size then some (updated a i v) else none

  pub get_lem : (a : DuplexArray T) (i : ℕ) → i < a.size → get a i ≡ some (a.elems i)
  unfolding get
  get_lem a i h = rw (lt→ltb i a.size h)

  pub put_lem : (a : DuplexArray T) (i : ℕ) (v : T) → i < a.size → put a i v ≡ some (updated a i v)
  unfolding put
  put_lem a i v h = rw (lt→ltb i a.size h)
