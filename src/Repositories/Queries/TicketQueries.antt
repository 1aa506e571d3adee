-- ===== src/Repositories/Queries/TicketQueries.antt =====
-- app/repositories/support_request_repository.py, extension_request_repository.py and
-- handover_request_repository.py: the listings of what is filed about devices.
use asset_pilot_fastapi.Repositories.Support.{is_open}
use asset_pilot_fastapi.Result.{multiple_results, err, ok, Result}
use asset_pilot_fastapi.Repositories.Queries.{
  where_is, outer, order_by, join, user_name, item_name, first, both,
}
use asset_pilot_fastapi.Table.{find}
use asset_pilot_fastapi.Enums.{
  SupportType-discrete, SupportStatus-discrete, ExtensionStatus-discrete, HandoverStatus-discrete,
  SupportType, SupportStatus, ExtensionStatus, HandoverStatus,
}
use asset_pilot_fastapi.Database.{user_key, request_key, item_key, Db}
use asset_pilot_fastapi.Models.{
  User, Request, Item, ExtensionRequest, HandoverRequest, SupportRequest,
}
use asset_pilot_fastapi.Prelude.{
  [], ◌&&◌, ◌&&◌, ◌==◌, ◌∷◌, ◌==◌, ltb, same, filter, take, String, length, Bool, Option, List, ℕ,
  none, some,
}

pub record SupportListRow : Type 0 where
  pub support_request : SupportRequest
  pub item_name : String
  pub requester_name : String

pub record SupportDetailRow : Type 0 where
  pub support_request : SupportRequest
  pub item : Item
  pub requester : User

pub record ExtensionListRow : Type 0 where
  pub extension_request : ExtensionRequest
  pub item_name : String
  pub requester_name : String

pub record ExtensionDetailRow : Type 0 where
  pub extension_request : ExtensionRequest
  pub request : Request
  pub item : Item
  pub requester : User

pub record HandoverListRow : Type 0 where
  pub handover_request : HandoverRequest
  pub item_name : String
  pub owner_name : String
  pub borrower_name : String

unfoldable pub count_open : Db → ℕ
count_open db = length (filter (λ (s : SupportRequest). is_open s.status) db.support_requests)

abbrev pub filed_later : SupportRequest → SupportRequest → Bool
filed_later s t = ltb t.filed_at s.filed_at

unfoldable pub support_row : Db → SupportRequest → Option SupportListRow
support_row db s =
    both
      (λ item requester. record {
        support_request = s;
        item_name = item;
        requester_name = requester;
      })
      (item_name db s.item_id) (user_name db s.requester_id)

unfoldable pub list_open : ℕ → Db → List SupportListRow
unfolding support_row
list_open limit db = take limit (
    join (support_row db) (
      order_by filed_later (filter (λ (s : SupportRequest). is_open s.status) db.support_requests)))

unfoldable pub is_wanted :
    Option SupportStatus → Option SupportType → Option ℕ → SupportRequest → Bool
is_wanted status type item_id s =
    where_is (same SupportStatus-discrete) status s.status
    && where_is (same SupportType-discrete) type s.type
    && where_is ◌==◌ item_id s.item_id

unfoldable pub list_support :
    Option SupportStatus → Option SupportType → Option ℕ → Db → List SupportListRow
unfolding support_row is_wanted
list_support status type item_id db =
    join (support_row db)
      (order_by filed_later (filter (is_wanted status type item_id) db.support_requests))

unfoldable pub support_detail_row : Db → SupportRequest → Option SupportDetailRow
support_detail_row db s =
    both (λ item requester. record { support_request = s; item = item; requester = requester })
      (find item_key s.item_id db.items) (find user_key s.requester_id db.users)

unfoldable pub get_support_detail : ℕ → Db → Option SupportDetailRow
unfolding support_detail_row
get_support_detail support_request_id db = first (
    join (support_detail_row db)
      (filter (λ (s : SupportRequest). s.id == support_request_id) db.support_requests))

unfoldable pub count_pending_extensions : Db → ℕ
count_pending_extensions db = length (
    filter
      (λ (x : ExtensionRequest). same ExtensionStatus-discrete x.status ExtensionStatus.pending)
      db.extension_requests)

abbrev pub made_later : ExtensionRequest → ExtensionRequest → Bool
made_later x y = ltb y.created_at x.created_at

-- The joins with the original request, its device and the requester.
unfoldable pub extension_detail_row : Db → ExtensionRequest → Option ExtensionDetailRow
extension_detail_row db x = elim (find request_key x.original_request_id db.requests) [
  | none ↦ none
  | some request ↦
      both
        (λ item requester. record {
          extension_request = x;
          request = request;
          item = item;
          requester = requester;
        })
        (outer (λ k. find item_key k db.items) request.assigned_item_id)
        (find user_key x.requester_id db.users)
]

unfoldable pub extension_row : Db → ExtensionRequest → Option ExtensionListRow
extension_row db x = elim (find request_key x.original_request_id db.requests) [
  | none ↦ none
  | some request ↦
      both
        (λ item requester. record {
          extension_request = x;
          item_name = item;
          requester_name = requester;
        })
        (outer (item_name db) request.assigned_item_id) (user_name db x.requester_id)
]

unfoldable pub list_extensions : Option ExtensionStatus → Db → List ExtensionListRow
unfolding extension_row
list_extensions status db = join (extension_row db) (
    order_by made_later (
      filter (λ x. where_is (same ExtensionStatus-discrete) status x.status) db.extension_requests))

unfoldable pub get_extension_detail : ℕ → Db → Option ExtensionDetailRow
unfolding extension_detail_row
get_extension_detail extension_request_id db = first (
    join (extension_detail_row db)
      (filter (λ (x : ExtensionRequest). x.id == extension_request_id) db.extension_requests))

abbrev pub is_accepted : HandoverRequest → Bool
is_accepted h = same HandoverStatus-discrete h.status HandoverStatus.accepted

-- `scalar_one_or_none`, which raises if there are several rows.
abbrev pub only {ℓ} : {A : Type ℓ} → List A → Result (Option A)
only [] = ok none
only (x ∷ []) = ok (some x)
only (x ∷ y ∷ xs) = err multiple_results

unfoldable pub get_accepted_for_item : ℕ → Db → Result (Option HandoverRequest)
get_accepted_for_item item_id db =
    only
      (filter (λ (h : HandoverRequest). h.item_id == item_id && is_accepted h) db.handover_requests)

unfoldable pub count_active : Db → ℕ
count_active db = length (filter is_accepted db.handover_requests)

abbrev pub requested_later : HandoverRequest → HandoverRequest → Bool
requested_later h k = ltb k.requested_at h.requested_at

unfoldable pub handover_row : Db → HandoverRequest → Option HandoverListRow
handover_row db h = elim (item_name db h.item_id) [
  | none ↦ none
  | some item ↦
      both
        (λ owner borrower. record {
          handover_request = h;
          item_name = item;
          owner_name = owner;
          borrower_name = borrower;
        })
        (user_name db h.owner_id) (user_name db h.borrower_id)
]

unfoldable pub list_handovers : Option HandoverStatus → Option ℕ → Db → List HandoverListRow
unfolding handover_row
list_handovers status item_id db = join (handover_row db) (
    order_by requested_later (
      filter
        (λ (h : HandoverRequest).
          where_is (same HandoverStatus-discrete) status h.status
          && where_is ◌==◌ item_id h.item_id)
        db.handover_requests))
