-- ===== src/Tests/External.antt =====
-- A platform: wakers that are listed when they are woken, and vectors that are lists.
use emcyphal.Common.{
  ℕ, refl, List, [], ◌∷◌, Option, none, some, length, ltb, leb, if◌then◌else◌, lt→ltb, le→leb,
}
use mathlib.Core.List.{reverse}
use emcyphal.External.{Wakers, Vecs, IsStack, Platform}
use emcyphal.Tests.Clock.{ticks}

-- A registration is the waker that waits and those that were woken.
abbrev pub wakers : Wakers
wakers = record {
  Waker = ℕ;
  Registration = Option ℕ × List ℕ;
  new = (none, []);
  register = λ r w. (some w, r.1);
  wake = λ r. elim (r.0) [ none ↦ r | some w ↦ (none, w ∷ r.1) ];
}

abbrev pub uncons : List ℕ → Option (ℕ × List ℕ)
uncons [] = none
uncons (x ∷ xs) = some (x, xs)

abbrev pub vecs : Vecs
vecs = record {
  Vec = λ n. List ℕ;
  contents = λ n r. r;
  collect = λ n xs. if leb (length xs) n then some (reverse xs) else none;
  push = λ n r x. if ltb (length r) n then some (x ∷ r) else none;
  pop = λ n r. uncons r;
}

pub vecs-IsStack : IsStack vecs
vecs-IsStack = record {
  collect_lem = λ n xs h. (reverse xs, rw (le→leb (length xs) n h), refl);
  push_room = λ n r x h. (x ∷ r, rw (lt→ltb (length r) n h), refl);
  pop_nil = λ n r e. rw e;
  pop_cons = λ n r x xs e. (xs, rw e, refl);
}

abbrev pub platform : Platform
platform = record { clock = ticks; wakers = wakers; vecs = vecs }
