-- ===== src/Ordered/Types.antt =====
-- framework/include/bbt/framework/OrderedTypes.hpp: grants, tickets and the ordered error codes.
use bbt_framework.Prelude.{
  ℕ, ◌≡◌, is_yes, Bool, true, ◌&&◌, String, String_discrete, arith, if◌then◌else◌,
}

-- `==` of two `std::string`
infix 50 ◌==ₛ◌
abbrev pub ◌==ₛ◌ : String → String → Bool
a ==ₛ b = is_yes (String_discrete a b)

pub record OrderedGrant : Type 0 where
  pub service : String
  pub actor_key : String
  pub producer_id : String
  pub producer_epoch : String
  pub receiver_epoch : String
  pub peer_principal : String

-- `operator==`
unfoldable pub same_grant : OrderedGrant → OrderedGrant → Bool
same_grant a b =
    a.service ==ₛ b.service
    && (a.actor_key ==ₛ b.actor_key
        && (a.producer_id ==ₛ b.producer_id
            && (a.producer_epoch ==ₛ b.producer_epoch
                && (a.receiver_epoch ==ₛ b.receiver_epoch
                    && a.peer_principal ==ₛ b.peer_principal))))

unfoldable pub same_ordered_stream_id : OrderedGrant → OrderedGrant → Bool
same_ordered_stream_id a b =
    a.service ==ₛ b.service
    && (a.actor_key ==ₛ b.actor_key
        && (a.producer_id ==ₛ b.producer_id
            && (a.producer_epoch ==ₛ b.producer_epoch && a.receiver_epoch ==ₛ b.receiver_epoch)))

pub same_grant_sound : (a b : OrderedGrant) → same_grant a b ≡ true → a ≡ b
unfolding same_grant
same_grant_sound a b h = ground arith

abbrev pub ordered_error_domain : String
ordered_error_domain = "framework.actor"

abbrev pub sequence_gap : String
sequence_gap = "SequenceGap"

abbrev pub in_progress : String
in_progress = "InProgress"

abbrev pub sequence_conflict : String
sequence_conflict = "SequenceConflict"

abbrev pub result_expired : String
result_expired = "ResultExpired"

abbrev pub ordered_stamp_required : String
ordered_stamp_required = "OrderedStampRequired"

abbrev pub stream_rejected : String
stream_rejected = "StreamRejected"

-- What a ticket is bound to at its first send.
pub record BoundContent : Type 0 where
  pub service : String
  pub method : String
  pub actor_key : String
  pub custom : String
  pub request_bytes : String

unfoldable pub same_content : BoundContent → BoundContent → Bool
same_content a b =
    a.service ==ₛ b.service
    && (a.method ==ₛ b.method
        && (a.actor_key ==ₛ b.actor_key
            && (a.custom ==ₛ b.custom && a.request_bytes ==ₛ b.request_bytes)))

pub record OrderedTicket : Type 0 where
  pub sequence : ℕ
  pub request_id : String
  pub bound_content : BoundContent
  pub bound : Bool

-- `BindOrCheck`: an unbound ticket takes the content, a bound one compares.
unfoldable pub bind_or_check : BoundContent → OrderedTicket → OrderedTicket × Bool
unfolding same_content
bind_or_check content t =
    if t.bound
    then (t, same_content t.bound_content content)
    else (record t { bound_content = content; bound = true }, true)
