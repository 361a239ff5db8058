-- ===== src/Tests/Runtime.antt =====
-- The runtime state of an application on concrete inputs.
use bbt_framework.Tests.{test_infra}
use bbt_framework.Tests.Dispatcher.{idle, request, incoming, moment}
use bbt_framework.Prelude.{ℕ, ◌≡◌, refl, [], ◌∷◌, none, some, false}
use bbt_framework.Infra.{ok}
use bbt_framework.Host.Runtime.{AppRuntimeState, allows, send, release, dispatch}
use bbt_framework.Host.Runtime.Egress.{IsBorneOut, send-IsBorneOut}
use bbt_framework.Host.Runtime.Released.{sends, run, released_refuses, IsUnavailable}

-- A policy that allows a call until 50, and a way out that answers.
abbrev app : AppRuntimeState ℕ ℕ
app = record {
  routes = ("room", record { transport = "http"; endpoint = "a:1" }) ∷ [];
  dynamic_routes = none;
  rpc_policy = some (λ view. ok (allows (some 50)));
  default_egress = some (λ view. ok view.request);
  seam_send = none;
  dispatcher = some idle;
  tables = [];
  instances = [];
  holds_registry = false;
}

send-IsBorneOut_example :
    IsBorneOut 10 11 request 90 app.dynamic_routes app.routes app.rpc_policy
      (send 10 11 request 90 app).1
send-IsBorneOut_example = send-IsBorneOut 10 11 request 90 app

released_refuses_example :
    (let after = run (release app) (sends 10 11 request 90 ∷ []) in
      IsUnavailable (dispatch moment incoming request after).1
      × ((dispatch moment incoming request after).0 ≡ after))
released_refuses_example =
    released_refuses app (sends 10 11 request 90 ∷ []) moment incoming request (refl, tt)
