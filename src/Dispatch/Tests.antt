-- ===== src/Dispatch/Tests.antt =====
-- Dispatch tickets at concrete inputs. The digest is the text itself here.
use iicp_client_rust.Base.{
  String, ◌<◌, ◌≡◌, ◌≢◌, ◌⊎◌, refl, false, List, [], ◌∷◌, none, some, ok, arith,
}
use iicp_client_rust.Base.Words.{saturating_sub}
use iicp_client_rust.Base.Dict.{get, insert, IsDistinct}
use iicp_client_rust.Dispatch.Admission.{
  Claim, Admission, Table, accept, reject, consume, consume_row, refusal, cleanup, evaluate,
}
use iicp_client_rust.Dispatch.Admission.Cleanup.{cleanup-RanOut}
use iicp_client_rust.Dispatch.Admission.Replay.{Call, transitions, cleans, run, consume_once}

abbrev plain : String → String
plain s = s

abbrev ticket : Claim
ticket = record {
  jti = "ticket-0123456789";
  provider_id = "p1";
  intent = "chat";
  not_before = 100;
  expires_at = 200;
}

abbrev spent : Table
spent = (consume plain none [] ticket "p1" "chat" 150 5).0

ticket_lem : (consume plain none [] ticket "p1" "chat" 150 5).1 ≡ ok accept
unfolding consume consume_row refusal get
ticket_lem = refl

-- The ticket is finished and cleaned up, and comes again.
abbrev since : List Call
since = transitions none "ticket-0123456789" "completed" 160 ∷ cleans none 300 50 10 ∷ []

consume_once_example :
    (consume plain none (run plain spent since) ticket "p1" "chat" 300 5).1 ≢ ok accept
consume_once_example =
    consume_once plain none none [] ticket "p1" "chat" "p1" "chat" 150 5 300 since tt ticket_lem
      (omega arith, tt, (omega arith, omega arith, tt)) (omega arith)

spent-IsDistinct : IsDistinct spent
unfolding consume consume_row refusal insert get
spent-IsDistinct = (refl, tt)

cleanup-RanOut_example :
    IsDistinct (cleanup none spent 300 50 10).0
    × ((get "ticket-0123456789" (cleanup none spent 300 50 10).0 ≡ get "ticket-0123456789" spent)
        ⊎ ((r : Admission) × (get "ticket-0123456789" spent ≡ some r)
            × (r.expires_at < saturating_sub 300 50)))
cleanup-RanOut_example = cleanup-RanOut none spent 300 50 10 "ticket-0123456789" spent-IsDistinct

cleaned_lem : cleanup none spent 300 50 10 ≡ ([], ok 1)
unfolding cleanup consume consume_row refusal insert get
cleaned_lem = refl

untrusted : evaluate plain none [] ticket "p1" "chat" 150 false 5 ≡ ([], reject "reject_issuer_key")
unfolding evaluate
untrusted = refl
