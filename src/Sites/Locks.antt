-- ===== src/Sites/Locks.antt =====
-- A request that names no site leaves the lock of the list of sites held.
use avme_wallet.Base.{
  Bool-cases, bind-eq-some, some_inj, Str, codes, ◌≡◌, refl, sym, ap, ◌∙◌, subst, inl, inr, true,
  ◌&&◌, none, some, [],
}
use avme_wallet.Database.{Leveldb}
use avme_wallet.Utils.Json.Tree.{Fields, at_field, as_string}
use avme_wallet.Api.{Node}
use avme_wallet.Sites.{System}
use avme_wallet.Sites.Requests.{User, Running, Ending, thrown, waiting, Demand, demand}
use avme_wallet.Sites.Handler.{
  no_sites, stopped, Outcome, Permission, no_origin, check_permission, requires_permission, decide,
  handle_object,
}

module _ (L : Leveldb) where
  -- The verdict is a stop, and the lock is held.
  abbrev IsHeld : Permission L → Type 0
  IsHeld p =
      ((ending : Ending) × (p.verdict ≡ stopped ending)) × (p.system.permission_locked ≡ true)

  no_origin-IsHeld : (sys : System L) → IsHeld (no_origin L sys)
  unfolding no_origin
  no_origin-IsHeld sys = elim (Bool-cases (no_sites sys.permission_list && sys.dialog_locked)) [
    | inl y ↦ rw (y, no_origin) ((waiting, refl), refl)
    | inr n ↦ rw (n, no_origin) ((thrown, refl), refl)
  ]

  check_permission-IsHeld :
      (node : Node) (user : User) (request : Fields) (sys : System L) (p : Permission L)
      → as_string (at_field (codes "__frameOrigin") request) ≡ none
      → check_permission L node user request sys ≡ some p
      → IsHeld p
  unfolding check_permission
  check_permission-IsHeld node user request sys p o e = elim (Bool-cases sys.permission_locked) [
    | inl y ↦ subst IsHeld (some_inj (rw (y, check_permission) at e)) ((waiting, refl), refl)
    | inr n ↦ subst IsHeld (some_inj (rw (n, check_permission, o) at e)) (no_origin-IsHeld sys)
  ]

  decide_stopped :
      (node : Node) (running : Running) (user : User) (d : Demand) (request : Fields)
      (p : Permission L)
      → IsHeld p
      → Outcome.system (decide L node running user d request p) ≡ p.system
  unfolding decide
  decide_stopped node running user d request p ((ending, s), _) = rw (s, decide) refl

  -- With the lock held, a request that needs a permission waits and does nothing.
  handle_object_locked :
      (node : Node) (running : Running) (user : User) (account : Str) (request : Fields)
      (sys : System L)
      → requires_permission L (demand node running account request) ≡ true
      → sys.permission_locked ≡ true
      → handle_object L node running user account request sys
        ≡ some (record { events = []; ending = waiting; system = sys })
  unfolding handle_object check_permission decide
  handle_object_locked node running user account request sys needs held =
      rw (needs, held, handle_object, check_permission, decide) refl

  -- Behind a request that needs a permission and names no site as a text, the next request that
  -- needs a permission, whatever the user would answer, shows nothing and sends nothing, waits for a
  -- lock, and leaves the state as it found it.
  pub handle_object_no_origin :
      (node node' : Node) (running running' : Running) (user user' : User) (account account' : Str)
      (request request' : Fields) (sys : System L) (o : Outcome L)
      → as_string (at_field (codes "__frameOrigin") request) ≡ none
      → requires_permission L (demand node running account request) ≡ true
      → handle_object L node running user account request sys ≡ some o
      → requires_permission L (demand node' running' account' request') ≡ true
      → handle_object L node' running' user' account' request' o.system
        ≡ some (record { events = []; ending = waiting; system = o.system })
  unfolding handle_object
  handle_object_no_origin node node' running running' user user' account account' request request'
        sys o none_named needs e needs' =
      let (p, checked, e') =
        bind-eq-some (check_permission L node user request sys) _
          (rw (needs, handle_object) at e) in
      let held = check_permission-IsHeld node user request sys p none_named checked in
      let same_system : Outcome.system o ≡ p.system =
        ap Outcome.system (sym (some_inj e'))
        ∙ decide_stopped node running user (demand node running account request) request p held in
      handle_object_locked node' running' user' account' request' o.system needs'
        (ap System.permission_locked same_system ∙ held.1)
