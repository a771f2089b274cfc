-- ===== src/Port/Kept.antt =====
-- A property of the world that every port keeps, for internal/port. The pair that PopPair answers is
-- good, and a good pair may be written back.
use overload_party_matchmaki.Prelude.{ℕ, ℤ, IsInt64, IsBytes, Text, List, All, ◌≡◌, ok}
use overload_party_matchmaki.Domain.{QueueEntry}
use overload_party_matchmaki.Port.{Ports, Context}

pub record Kept (ports : Ports) (P : ports.World → Type 0) (Good : QueueEntry → Type 0)
    : Type 0 where
  pub on_enqueue :
      (player : Text) (deck : ℤ) (name : Text) (level : ℤ) (id : Text) (w : ports.World)
      → IsInt64 deck
      → IsInt64 level
      → IsBytes name
      → P w
      → P (ports.enqueue player deck name level id w).0
  pub on_cancel : (player : Text) (w : ports.World) → P w → P (ports.cancel player w).0
  pub on_size : (w : ports.World) → P w → P (ports.size w).0
  pub on_pop_pair : (w : ports.World) → P w → P (ports.pop_pair w).0
  pub good_pair :
      (w : ports.World) (pair : List QueueEntry) (id : Text)
      → P w
      → (ports.pop_pair w).1 ≡ ok (pair, id)
      → All Good pair
  pub on_reenqueue :
      (ctx : Context) (pair : List QueueEntry) (id : Text) (w : ports.World)
      → All Good pair
      → P w
      → P (ports.reenqueue ctx pair id w).0
  pub on_publish :
      (event_type payload : Text) (w : ports.World) → P w → P (ports.publish event_type payload w).0
  pub on_now : (w : ports.World) → P w → P (ports.now w).0
  pub on_wait : (d : ℕ) (w : ports.World) → P w → P (ports.wait d w).0
  pub on_ctx_err : (w : ports.World) → P w → P (ports.ctx_err w).0
  pub on_new_match_id : (w : ports.World) → P w → P (ports.new_match_id w).0
