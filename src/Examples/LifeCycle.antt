-- ===== src/Examples/LifeCycle.antt =====
-- The theorems on the life cycle of requests, applied.
use asset_pilot_fastapi.Api.LifeCycle.{terminal_forever, serve_moves}
use asset_pilot_fastapi.Outcomes.Moves.{may_move}
use asset_pilot_fastapi.Enums.{RequestStatus}
use asset_pilot_fastapi.Table.{find}
use asset_pilot_fastapi.Examples.Data.{held_request, holding, outside, waiting, request}
use asset_pilot_fastapi.Database.{is_terminal, Db}
use asset_pilot_fastapi.Repositories.{get_request}
use asset_pilot_fastapi.Models.{Request}
use asset_pilot_fastapi.Prelude.{refl, true, ◌≡◌, ◌≡◌, [], ◌∷◌, ◌∷◌, some}
use asset_pilot_fastapi.Api.Reach.{Reach}
use asset_pilot_fastapi.Api.{serve, Call}

abbrev cancellation : Call
cancellation = Call.cancel_call 20 "gone" 1

serve_moves_example :
    (new : Request) × (get_request 20 (serve outside cancellation holding).1 ≡ some new)
    × (may_move RequestStatus.assigned new.status ≡ true)
unfolding get_request find
serve_moves_example = serve_moves outside cancellation holding 20 held_request refl

-- A rejected request, which a call then tries to cancel.
abbrev refused_request : Request
refused_request = record request { status = RequestStatus.rejected }

abbrev after_refusal : Db
after_refusal = record waiting { requests = refused_request ∷ [] }

terminal_forever_example :
    (new : Request) × (get_request 20 (serve outside cancellation after_refusal).1 ≡ some new)
    × (is_terminal new.status ≡ true)
unfolding get_request find
terminal_forever_example =
    terminal_forever {start = after_refusal} {db = (serve outside cancellation after_refusal).1} 20
      refused_request (Reach.step outside cancellation Reach.here) refl refl
