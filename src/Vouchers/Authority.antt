-- ===== src/Vouchers/Authority.antt =====
-- The voucher document as the authority over its quotas: each operation of vouchers.service.ts on
-- it is one conditional update of that document.
use appchat_be.Common.{
  ℕ, Bool, true, false, ◌&&◌, not, List, [], ◌∷◌, ◌++◌, ltb, leb, ◌==◌, if◌then◌else◌, any, count,
  length, update_first,
}
use appchat_be.Common.Int.{ℤ, pos, ◌+ℤ◌, ◌-ℤ◌, ltb_ℤ}

pub data VoucherStatus : Type 0 where
  draft active paused archived : VoucherStatus

abbrev pub is_active : VoucherStatus → Bool
is_active active = true
is_active draft = false
is_active paused = false
is_active archived = false

pub data HoldStatus : Type 0 where
  reserved used released : HoldStatus

abbrev pub same_hold : HoldStatus → HoldStatus → Bool
same_hold reserved reserved = true
same_hold reserved used = false
same_hold reserved released = false
same_hold used reserved = false
same_hold used used = true
same_hold used released = false
same_hold released reserved = false
same_hold released used = false
same_hold released released = true

-- An entry of `reservations`; the token is the identifier of the purchase intent.
pub record Reservation : Type 0 where
  pub token : ℕ
  pub user_id : ℕ
  pub status : HoldStatus

-- What the quota updates read and write of a voucher. The counters are integers, as `$inc` would
-- take them below 0.
pub record Voucher : Type 0 where
  pub revision : ℕ
  pub status : VoucherStatus
  pub starts_at : ℕ
  pub ends_at : ℕ
  pub total_limit : ℕ
  pub per_user_limit : ℕ
  pub reserved_count : ℤ
  pub used_count : ℤ
  pub reservations : List Reservation

-- `RESERVATION_CAP`
abbrev pub reservation_cap : ℕ
reservation_cap = 10000

abbrev pub has_token : ℕ → Reservation → Bool
has_token token r = r.token == token

-- `$elemMatch: { token, status }`
abbrev pub is_at : ℕ → HoldStatus → Reservation → Bool
is_at token from r = r.token == token && same_hold r.status from

abbrev pub in_status : HoldStatus → Reservation → Bool
in_status s r = same_hold r.status s

-- A reservation of the user that counts against the limit per user.
abbrev pub is_live : ℕ → Reservation → Bool
is_live user r = r.user_id == user && not (same_hold r.status released)

-- The token is new, the list is below its cap, and the document is small enough (`$bsonSize`, a
-- parameter).
abbrev pub admits : (Voucher → Bool) → ℕ → Voucher → Bool
admits small token v =
    not (any (has_token token) v.reservations)
    && ltb (length v.reservations) reservation_cap
    && small v

abbrev pub add_entry : ℕ → ℕ → HoldStatus → List Reservation → List Reservation
add_entry token user s rs = rs ++ record { token = token; user_id = user; status = s } ∷ []

-- The conditions on the voucher as the intent was priced against it.
abbrev pub on_offer : ℕ → ℕ → Voucher → Bool
on_offer revision now v =
    v.revision == revision && is_active v.status && leb v.starts_at now && ltb now v.ends_at

-- Both quotas have room.
abbrev pub has_room : ℕ → Voucher → Bool
has_room user v =
    ltb_ℤ (v.reserved_count +ℤ v.used_count) (pos v.total_limit)
    && ltb (count (is_live user) v.reservations) v.per_user_limit

-- The reserving update of `recover`.
unfoldable pub reserve : (Voucher → Bool) → ℕ → ℕ → ℕ → ℕ → Voucher → Voucher
reserve small token user revision now v =
    if on_offer revision now v && admits small token v && has_room user v
    then record v {
      reserved_count = v.reserved_count +ℤ pos 1;
      reservations = add_entry token user reserved v.reservations;
    }
    else v

-- The tombstone that `recover` writes when nothing was reserved.
unfoldable pub tombstone : (Voucher → Bool) → ℕ → ℕ → Voucher → Voucher
tombstone small token user v =
    if admits small token v
    then record v { reservations = add_entry token user released v.reservations }
    else v

abbrev pub to_status : HoldStatus → Reservation → Reservation
to_status s r = record r { status = s }

abbrev pub at_hold : ℕ → HoldStatus → HoldStatus → List Reservation → List Reservation
at_hold token from to rs = update_first (is_at token from) (to_status to) rs

-- `release(i, 'reserved')`
unfoldable pub release_reserved : ℕ → Voucher → Voucher
release_reserved token v =
    if any (is_at token reserved) v.reservations
    then record v {
      reserved_count = v.reserved_count -ℤ pos 1;
      reservations = at_hold token reserved released v.reservations;
    }
    else v

-- `release(i, 'used')`
unfoldable pub release_used : ℕ → Voucher → Voucher
release_used token v =
    if any (is_at token used) v.reservations
    then record v {
      used_count = v.used_count -ℤ pos 1;
      reservations = at_hold token used released v.reservations;
    }
    else v

-- The update of `settle` for an order that was fulfilled.
unfoldable pub use_reserved : ℕ → Voucher → Voucher
use_reserved token v =
    if any (is_at token reserved) v.reservations
    then record v {
      reserved_count = v.reserved_count -ℤ pos 1;
      used_count = v.used_count +ℤ pos 1;
      reservations = at_hold token reserved used v.reservations;
    }
    else v

-- The update of `reconcile` that takes back a use which the old scheduler recorded.
unfoldable pub reverse_used : ℕ → Voucher → Voucher
reverse_used token v =
    if any (is_at token used) v.reservations
    then record v {
      used_count = v.used_count -ℤ pos 1;
      reserved_count = v.reserved_count +ℤ pos 1;
      reservations = at_hold token used reserved v.reservations;
    }
    else v

-- The updates of the document by purchases, in any order and from any number of processes.
pub data Step : Type 0 where
  reserving : ℕ → ℕ → ℕ → ℕ → Step
  burying : ℕ → ℕ → Step
  releasing_reserved releasing_used using reversing : ℕ → Step

unfoldable pub step : (Voucher → Bool) → Step → Voucher → Voucher
step small (reserving token user revision now) v = reserve small token user revision now v
step small (burying token user) v = tombstone small token user v
step small (releasing_reserved token) v = release_reserved token v
step small (releasing_used token) v = release_used token v
step small (using token) v = use_reserved token v
step small (reversing token) v = reverse_used token v

unfoldable pub run : (Voucher → Bool) → List Step → Voucher → Voucher
run small [] v = v
run small (s ∷ ss) v = run small ss (step small s v)
