-- ===== src/Format/TailByte/Laws.antt =====
-- emcyphal/src/format.rs: the fields of a tail byte, put in and read back.
use emcyphal.Common.{
  ◌<◌, ◌≡◌, refl, Bool, true, false, ◌&&◌, arith, ltb, ◌==◌, ==_iff, bool_eq, bool_eq_sound,
  all_below, all_below_sound,
}
use emcyphal.Core.Ids.TransferId.{TransferId}
use emcyphal.Format.TailByte.{TailByte, new, sot, eot, toggle, transfer_id}

fields_test : Bool → Bool → Bool → TransferId → Bool
fields_test s e g t =
    let b = new s e g t in
    bool_eq (sot b) s
    && (bool_eq (eot b) e && (bool_eq (toggle b) g && (transfer_id b == t && ltb b 256)))

fields_table : (s e g : Bool) → all_below 32 (fields_test s e g) ≡ true
unfolding all_below fields_test new sot eot toggle transfer_id
fields_table true true true = refl
fields_table true true false = refl
fields_table true false true = refl
fields_table true false false = refl
fields_table false true true = refl
fields_table false true false = refl
fields_table false false true = refl
fields_table false false false = refl

fields_parts :
    (s e g : Bool) (t : TransferId)
    → fields_test s e g t ≡ true
    → (sot (new s e g t) ≡ s)
      × (eot (new s e g t) ≡ e)
      × (toggle (new s e g t) ≡ g)
      × (transfer_id (new s e g t) ≡ t)
      × (new s e g t < 256)
unfolding fields_test
fields_parts s e g t h =
    let b = new s e g t in
    ground (arith, bool_eq_sound (sot b) s, bool_eq_sound (eot b) e, bool_eq_sound (toggle b) g)

-- A tail byte made of three flags and a transfer id of at most 31 is a byte, and its accessors return
-- the flags and the id that it was made of.
pub new_fields :
    (s e g : Bool) (t : TransferId)
    → t < 32
    → (sot (new s e g t) ≡ s)
      × (eot (new s e g t) ≡ e)
      × (toggle (new s e g t) ≡ g)
      × (transfer_id (new s e g t) ≡ t)
      × (new s e g t < 256)
new_fields s e g t h =
    fields_parts s e g t (all_below_sound 32 (fields_test s e g) t (fields_table s e g) h)

-- Every byte is the tail byte of its own fields.
bytes_test : TailByte → Bool
bytes_test b = new (sot b) (eot b) (toggle b) (transfer_id b) == b

bytes_table : all_below 256 bytes_test ≡ true
unfolding all_below bytes_test new sot eot toggle transfer_id
bytes_table = refl

pub new_of_fields : (b : TailByte) → b < 256 → new (sot b) (eot b) (toggle b) (transfer_id b) ≡ b
unfolding bytes_test
new_of_fields b h = (==_iff _ _).0 (all_below_sound 256 bytes_test b bytes_table h)
