-- ===== src/Sites/Handler.antt =====
-- qmlwrap/QmlServer.cpp, handleServer: the permission, the dialogues and the reply. The user's answers
-- are given. A second lock of a mutex waits for the unlock in the function that takes the answer.
use avme_wallet.Base.{
  if◌then◌else◌, ◌>>=◌, Str, codes, same, Bool, true, false, ◌&&◌, ◌||◌, Option, none, some, List,
  [], ◌∷◌, ◌++◌,
}
use avme_wallet.Database.{Leveldb}
use avme_wallet.Utils.Json.Tree.{Value, null, object, Fields, done, at_field, as_string}
use avme_wallet.Api.{Node}
use avme_wallet.Sites.{System, add_to_permission_list}
use avme_wallet.Sites.Requests.{
  User, Running, Transaction, Signing, Event, asked_permission, asked_transaction, asked_sign,
  replied, closed_session, Ending, returned, thrown, waiting, Demand, public_answer, account_answer,
  transaction_demand, sign_demand, silence, failure, demand, transaction_of, signing_of,
  requested_transaction_status, requested_sign_status, answer_of,
}

-- The loop over the list goes on behind a match, so the last one counts.
abbrev pub permission_of : Str → List (Str × Bool) → Bool → Bool
permission_of website [] permission = permission
permission_of website ((w, allow) ∷ list) permission =
    permission_of website list (if same website w then allow else permission)

abbrev pub is_listed : Str → List (Str × Bool) → Bool
is_listed website [] = false
is_listed website ((w, allow) ∷ list) = same website w || is_listed website list

abbrev pub no_sites : List (Str × Bool) → Bool
no_sites [] = true
no_sites (w ∷ list) = false

-- What the handler knows of the permission, or what keeps it from going on.
pub data Verdict : Type 0 where
  decided : Bool → Verdict
  stopped : Ending → Verdict

module _ (L : Leveldb) where
  pub record Outcome : Type 0 where
    pub events : List Event
    pub ending : Ending
    pub system : System L

  pub record Permission : Type 0 where
    pub verdict : Verdict
    pub asked : List Event
    pub system : System L

  abbrev pub stop : Ending → Bool → System L → Permission
  stop ending dialog_locked sys = record {
    verdict = stopped ending;
    asked = [];
    system = record sys { permission_locked = true; dialog_locked = dialog_locked };
  }

  -- A request without the text of an origin throws between the lock and the unlock: with sites in the
  -- list in the loop, without sites behind the lock of the dialogues.
  unfoldable pub no_origin : System L → Permission
  no_origin sys =
      if no_sites sys.permission_list && sys.dialog_locked
      then stop waiting true sys
      else stop thrown (no_sites sys.permission_list || sys.dialog_locked) sys

  -- The question about a site, if the lock of the dialogues is free. `none` is an exception of
  -- addToPermissionList, which the user's answer calls.
  unfoldable pub ask_permission : Bool → Node → User → Str → System L → Option Permission
  ask_permission true node user website sys = some (stop waiting true sys)
  ask_permission false node user website sys = do
    sys' ← add_to_permission_list L node website user.allows sys
    some (record {
      verdict = decided (permission_of website sys'.permission_list false);
      asked = asked_permission website ∷ [];
      system = sys';
    })

  unfoldable pub check_permission : Node → User → Fields → System L → Option Permission
  check_permission node user request sys =
      if sys.permission_locked
      then some (record { verdict = stopped waiting; asked = []; system = sys })
      else elim (as_string (at_field (codes "__frameOrigin") request)) [
        | none ↦ some (no_origin sys)
        | some website ↦
            if is_listed website sys.permission_list
            then some (record {
              verdict = decided (permission_of website sys.permission_list false);
              asked = [];
              system = sys;
            })
            else ask_permission sys.dialog_locked node user website sys
      ]

  -- The end of the handler: dump throws on no text that json::parse has let through.
  unfoldable pub reply : Node → Running → List Event → Value → System L → Outcome
  reply node running events response sys =
      if running.at_reply
      then elim (node.dump response) [
        | none ↦ record { events = events; ending = thrown; system = sys }
        | some s ↦ record { events = events ++ replied s ∷ []; ending = returned; system = sys }
      ]
      else record { events = events; ending = returned; system = sys }

  -- A dialogue: the mutex is taken, the request is read and shown, and the answer is waited for.
  unfoldable pub dialogue :
      Node → Running → List Event → Value → Option Event → Str → System L → Outcome
  dialogue node running events id none answer sys =
      if sys.dialog_locked
      then record { events = events; ending = waiting; system = sys }
      else record { events = events; ending = thrown; system = record sys { dialog_locked = true } }
  dialogue node running events id (some shown) answer sys =
      if sys.dialog_locked
      then record { events = events; ending = waiting; system = sys }
      else reply node running (events ++ shown ∷ []) (answer_of id answer) sys

  abbrev show_transaction : Option Transaction → Option Event
  show_transaction none = none
  show_transaction (some tx) = some (asked_transaction tx)

  abbrev show_signing : Option Signing → Option Event
  show_signing none = none
  show_signing (some s) = some (asked_sign s)

  -- Behind a permission that was given.
  unfoldable pub serve : Node → Running → User → Demand → Fields → List Event → System L → Outcome
  serve node running user (public_answer v) request events sys = reply node running events v sys
  serve node running user (account_answer v) request events sys = reply node running events v sys
  serve node running user transaction_demand request events sys =
      dialogue node running events (at_field (codes "id") request)
        (show_transaction (transaction_of request))
        (requested_transaction_status (user.transaction.0) (user.transaction.1)) sys
  serve node running user (sign_demand sign_type) request events sys =
      dialogue node running events (at_field (codes "id") request)
        (show_signing (signing_of sign_type request))
        (requested_sign_status (user.signing.0) (user.signing.1)) sys
  serve node running user silence request events sys = record {
    events = events;
    ending = returned;
    system = sys;
  }
  serve node running user failure request events sys = record {
    events = events;
    ending = thrown;
    system = sys;
  }

  abbrev pub requires_permission : Demand → Bool
  requires_permission (public_answer v) = false
  requires_permission (account_answer v) = true
  requires_permission transaction_demand = true
  requires_permission (sign_demand sign_type) = true
  requires_permission silence = false
  requires_permission failure = false

  unfoldable pub decide : Node → Running → User → Demand → Fields → Permission → Outcome
  decide node running user d request p = elim p.verdict [
    | decided true ↦ serve node running user d request p.asked p.system
    | decided false ↦ record {
      events = p.asked ++ closed_session ∷ [];
      ending = returned;
      system = p.system;
    }
    | stopped ending ↦ record { events = p.asked; ending = ending; system = p.system }
  ]

  unfoldable pub handle_object : Node → Running → User → Str → Fields → System L → Option Outcome
  handle_object node running user account request sys =
      let d = demand node running account request in
      if requires_permission d
      then (do
        p ← check_permission node user request sys
        some (decide node running user d request p))
      else some (serve node running user d request [] sys)

  -- A request that is no object throws at its first member, and null becomes an object there.
  unfoldable pub handle_request : Node → Running → User → Str → Value → System L → Option Outcome
  handle_request node running user account (object request) sys =
      handle_object node running user account request sys
  handle_request node running user account null sys =
      handle_object node running user account done sys
  handle_request node running user account v sys =
      some (record { events = []; ending = thrown; system = sys })

  unfoldable pub handle_server : Node → Running → User → Str → Str → System L → Option Outcome
  handle_server node running user account input_str sys = elim (node.parse input_str) [
    | none ↦ some (record { events = []; ending = thrown; system = sys })
    | some request ↦ handle_request node running user account request sys
  ]
