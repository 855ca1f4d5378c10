-- ===== src/Buffer/Ready.antt =====
-- emcyphal/src/buffer.rs, `DynamicTxBuffer`: what a frame from a transmit buffer is like, whichever
-- buffer it is.
use mathlib.Core.Path.{subst}
use emcyphal.Common.{
  ℕ, ◌≤◌, ◌≡◌, refl, sym, ap, ◌∙◌, Bool, List, Option, some, none, split_last, split_last-snoc,
  true, false, some_unique, arith, if◌then◌else◌,
}
use emcyphal.Core.Priority.{
  Priority, exceptional, immediate, fast, high, nominal, low, slow, optional,
}
use emcyphal.Core.PrioritySet.{new_eq, none_set, first}
use emcyphal.Format.{is_eot_frame}
use emcyphal.Format.TailByte
use emcyphal.Frame.{Frame}
use emcyphal.Frame.Mtu.{Mtu, to_usize}
use emcyphal.Scatter.{Scatter, fetch_frame_data}
use emcyphal.Scatter.Live.{Yields, fetch-le}

-- The set of one priority has it first.
pub first-new_eq : (q : Priority) → first (new_eq q) ≡ some q
unfolding first
first-new_eq exceptional = refl
first-new_eq immediate = refl
first-new_eq fast = refl
first-new_eq high = refl
first-new_eq nominal = refl
first-new_eq low = refl
first-new_eq slow = refl
first-new_eq optional = refl

-- Where there is one priority at most, it is the one that is found first.
pub first-only :
    (c : Bool) (r q : Priority)
    → first (if c then new_eq r else none_set) ≡ some q
    → (c ≡ true) × (r ≡ q)
unfolding first
first-only true r q h = (refl, some_unique refl (sym (first-new_eq r) ∙ h))
first-only false r q h = absurd (ground (arith, h))

-- A frame no longer than the MTU, with a tail byte.
pub record Sound {I : Type 0} (mtu : Mtu) (frame : Frame I) : Type 0 where
  pub within : frame.content.len ≤ to_usize mtu
  pub last : Bool
  pub tail : is_eot_frame frame ≡ some last

pub fetched-Sound :
    {I : Type 0} (s : Scatter) (tx : List ℕ) (mtu : Mtu) (frame : Frame I)
    (y : Yields s tx (fetch_frame_data s tx mtu))
    → frame.content ≡ y.frame
    → Sound mtu frame
fetched-Sound s tx mtu frame y same = record {
  within = subst (λ d. d.len ≤ to_usize mtu) (sym same) (fetch-le s tx mtu y.after y.frame y.eq);
  last = TailByte.eot y.byte;
  tail =
      let e : split_last (emcyphal.Frame.deref frame.content) ≡ some (y.byte, y.init) =
        ap (λ d. split_last (emcyphal.Frame.deref d)) same
        ∙ ap split_last y.tail
        ∙ split_last-snoc y.init y.byte in
      ap (λ o. elim o [ none ↦ none | some (byte, init) ↦ some (TailByte.eot byte) ]) e;
}

-- A buffer that is asked for the most urgent priority that it has ready gives a frame of it.
pub record Gives {S I : Type 0} (Valid : S → Type 0) (q : Priority) (mtu : Mtu)
    (o : Option (S × Option (Frame I))) : Type 0 where
  pub after : S
  pub frame : Frame I
  pub eq : o ≡ some (after, some frame)
  pub valid : Valid after
  pub level : frame.header.priority ≡ q
  pub sound : Sound mtu frame
