-- ===== src/Sites/Safety.antt =====
-- What a site gets without a permission, and what a request without an origin does.
use avme_wallet.Base.{
  Bool-cases, or_inv, Option-cases, bind-eq-some, some_inj, Str, codes, ◌≡◌, refl, sym, ap, ◌∙◌,
  subst, ◌⊎◌, inl, inr, Bool, true, false, ◌&&◌, ◌||◌, Option, none, some, List, [], ◌∷◌, ◌++◌,
}
use avme_wallet.Database.{Leveldb}
use avme_wallet.Utils.Json.Tree.{Value, string, Fields, at_field, as_string}
use avme_wallet.Api.{Node}
use avme_wallet.Sites.{System, add_to_permission_list}
use avme_wallet.Sites.Requests.{
  User, Running, Event, asked_permission, asked_transaction, asked_sign, replied, closed_session,
  Ending, thrown, waiting, Demand, public_answer, account_answer, transaction_demand, sign_demand,
  silence, failure, demand, answer_of,
}
use avme_wallet.Sites.Handler.{
  permission_of, is_listed, no_sites, Verdict, decided, stopped, Outcome, Permission, stop,
  no_origin, ask_permission, check_permission, reply, dialogue, serve, requires_permission, decide,
  handle_object,
}

-- What is of the account: a reply, and the dialogues for a transaction and a signature.
abbrev pub is_private : Event → Bool
is_private (asked_permission website) = false
is_private (asked_transaction tx) = true
is_private (asked_sign s) = true
is_private (replied s) = true
is_private closed_session = false

abbrev pub any_private : List Event → Bool
any_private [] = false
any_private (e ∷ events) = is_private e || any_private events

or_false : (a b : Bool) → a ≡ false → b ≡ false → (a || b) ≡ false
or_false false b h h' = h'
or_false true b h h' = cc

closed_only :
    (events : List Event)
    → any_private events ≡ false
    → any_private (events ++ closed_session ∷ []) ≡ false
closed_only [] h = refl
closed_only (e ∷ events) h =
    let (first, rest) = or_inv (is_private e) (any_private events) h in
    or_false (is_private e) (any_private (events ++ closed_session ∷ [])) first
      (closed_only events rest)

-- The methods of the provider that give or use the account.
pub data PrivateMethod : Type 0 where
  request_accounts : PrivateMethod
  accounts : PrivateMethod
  send_transaction : PrivateMethod
  sign : PrivateMethod
  sign_personal : PrivateMethod
  sign_personal_spaced : PrivateMethod

abbrev pub method_name : PrivateMethod → Str
method_name request_accounts = codes "eth_requestAccounts"
method_name accounts = codes "eth_accounts"
method_name send_transaction = codes "eth_sendTransaction"
method_name sign = codes "eth_sign"
method_name sign_personal = codes "personal_sign"
method_name sign_personal_spaced = codes "personal sign"

module _ (L : Leveldb) where
  -- The site of a request has a permission in a state.
  abbrev pub IsPermitted : Fields → System L → Type 0
  IsPermitted request sys =
      (website : Str) × (as_string (at_field (codes "__frameOrigin") request) ≡ some website)
      × (permission_of website sys.permission_list false ≡ true)

  abbrev IsChecked : Fields → Permission L → Type 0
  IsChecked request p =
      (p.verdict ≡ decided true → IsPermitted request p.system) × (any_private p.asked ≡ false)

  decided_inj : (a b : Bool) → decided a ≡ decided b → a ≡ b
  decided_inj a b e = cc

  stopped-IsChecked :
      (request : Fields) (p : Permission L) (ending : Ending)
      → p.verdict ≡ stopped ending
      → any_private p.asked ≡ false
      → IsChecked request p
  stopped-IsChecked request p ending e h =
      ((λ v. let bad : stopped ending ≡ decided true = sym e ∙ v in cc), h)

  stop-IsChecked :
      (request : Fields) (ending : Ending) (dialogs : Bool) (sys : System L)
      → IsChecked request (stop L ending dialogs sys)
  stop-IsChecked request ending dialogs sys =
      stopped-IsChecked request (stop L ending dialogs sys) ending refl refl

  no_origin-IsChecked : (request : Fields) (sys : System L) → IsChecked request (no_origin L sys)
  unfolding no_origin
  no_origin-IsChecked request sys =
      elim (Bool-cases (no_sites sys.permission_list && sys.dialog_locked)) [
        | inl y ↦ rw (y, no_origin) (stop-IsChecked request waiting true sys)
        | inr n ↦
            rw (n, no_origin)
              (stop-IsChecked request thrown (no_sites sys.permission_list || sys.dialog_locked)
                sys)
      ]

  -- A permission that the list gives.
  listed-IsChecked :
      (request : Fields) (website : Str) (asked : List Event) (sys : System L)
      → as_string (at_field (codes "__frameOrigin") request) ≡ some website
      → any_private asked ≡ false
      → IsChecked request (record {
        verdict = decided (permission_of website sys.permission_list false);
        asked = asked;
        system = sys;
      })
  listed-IsChecked request website asked sys origin h =
      ((λ v. (website, origin, decided_inj _ true v)), h)

  ask_permission-IsChecked :
      (locked : Bool) (node : Node) (user : User) (request : Fields) (website : Str)
      (sys : System L) (p : Permission L)
      → as_string (at_field (codes "__frameOrigin") request) ≡ some website
      → ask_permission L locked node user website sys ≡ some p
      → IsChecked request p
  unfolding ask_permission
  ask_permission-IsChecked true node user request website sys p o e =
      subst (IsChecked request) (some_inj e) (stop-IsChecked request waiting true sys)
  ask_permission-IsChecked false node user request website sys p o e =
      let (sys', _, e') =
        bind-eq-some (add_to_permission_list L node website user.allows sys) _ e in
      subst (IsChecked request) (some_inj e')
        (listed-IsChecked request website (asked_permission website ∷ []) sys' o refl)

  check_permission-IsChecked :
      (node : Node) (user : User) (request : Fields) (sys : System L) (p : Permission L)
      → check_permission L node user request sys ≡ some p
      → IsChecked request p
  unfolding check_permission
  check_permission-IsChecked node user request sys p e = elim (Bool-cases sys.permission_locked) [
    | inl y ↦ subst (IsChecked request) (some_inj (rw (y, check_permission) at e)) (
        stopped-IsChecked request (record { verdict = stopped waiting; asked = []; system = sys })
          waiting refl refl)
    | inr n ↦ elim (Option-cases (as_string (at_field (codes "__frameOrigin") request))) [
      | inl o ↦
          subst (IsChecked request) (some_inj (rw (n, check_permission, o) at e))
            (no_origin-IsChecked request sys)
      | inr (website, o) ↦ elim (Bool-cases (is_listed website sys.permission_list)) [
        | inl z ↦
            subst (IsChecked request) (some_inj (rw (n, check_permission, o, z) at e))
              (listed-IsChecked request website [] sys o refl)
        | inr m ↦
            ask_permission-IsChecked sys.dialog_locked node user request website sys p o
              (rw (n, check_permission, o, m) at e)
      ]
    ]
  ]

  -- Serving leaves the list.
  reply_list :
      (node : Node) (running : Running) (events : List Event) (v : Value) (sys : System L)
      → Outcome.system (reply L node running events v sys) ≡ sys
  unfolding reply
  reply_list node running events v sys = elim (Bool-cases running.at_reply) [
    | inl y ↦ elim (Option-cases (node.dump v)) [
      | inl e ↦ rw (y, reply, e) refl
      | inr (s, e) ↦ rw (y, reply, e) refl
    ]
    | inr n ↦ rw (n, reply) refl
  ]

  dialogue_list :
      (node : Node) (running : Running) (events : List Event) (id : Value) (shown : Option Event)
      (answer : Str) (sys : System L)
      → System.permission_list (Outcome.system (dialogue L node running events id shown answer sys))
        ≡ sys.permission_list
  unfolding dialogue
  dialogue_list node running events id none answer sys = elim (Bool-cases sys.dialog_locked) [
    | inl y ↦ rw (y, dialogue) refl
    | inr n ↦ rw (n, dialogue) refl
  ]
  dialogue_list node running events id (some shown) answer sys =
      elim (Bool-cases sys.dialog_locked) [
        | inl y ↦ rw (y, dialogue) refl
        | inr n ↦
            rw (n, dialogue)
              (ap System.permission_list
                (reply_list node running (events ++ shown ∷ []) (answer_of id answer) _))
      ]

  serve_list :
      (node : Node) (running : Running) (user : User) (d : Demand) (request : Fields)
      (events : List Event) (sys : System L)
      → System.permission_list (Outcome.system (serve L node running user d request events sys))
        ≡ sys.permission_list
  unfolding serve
  serve_list node running user (public_answer v) request events sys =
      ap System.permission_list (reply_list node running events v sys)
  serve_list node running user (account_answer v) request events sys =
      ap System.permission_list (reply_list node running events v sys)
  serve_list node running user transaction_demand request events sys =
      dialogue_list node running events _ _ _ sys
  serve_list node running user (sign_demand sign_type) request events sys =
      dialogue_list node running events _ _ _ sys
  serve_list node running user silence request events sys = refl
  serve_list node running user failure request events sys = refl

  Verdict-cases :
      (v : Verdict)
      → (v ≡ decided true) ⊎ ((v ≡ decided false) ⊎ ((ending : Ending) × (v ≡ stopped ending)))
  Verdict-cases (decided true) = inl refl
  Verdict-cases (decided false) = inr (inl refl)
  Verdict-cases (stopped ending) = inr (inr (ending, refl))

  decide-IsPermitted :
      (node : Node) (running : Running) (user : User) (d : Demand) (request : Fields)
      (p : Permission L)
      → IsChecked request p
      → any_private (Outcome.events (decide L node running user d request p)) ≡ true
      → IsPermitted request (Outcome.system (decide L node running user d request p))
  unfolding decide
  decide-IsPermitted node running user d request p (given, quiet) h =
      elim (Verdict-cases p.verdict) [
        | inl y ↦
            let (website, origin, permission) = given y in
            (
              website,
              origin,
              rw (y, decide, serve_list node running user d request p.asked p.system) permission,
            )
        | inr (inl n) ↦ let bad = sym (rw (n, decide) at h) ∙ closed_only p.asked quiet in cc
        | inr (inr (ending, s)) ↦ let bad = sym (rw (s, decide) at h) ∙ quiet in cc
      ]

  private_method-requires :
      (node : Node) (running : Running) (account : Str) (request : Fields) (m : PrivateMethod)
      → at_field (codes "method") request ≡ string (method_name m)
      → requires_permission L (demand node running account request) ≡ true
  unfolding demand
  private_method-requires node running account request request_accounts e = rw (demand, e) refl
  private_method-requires node running account request accounts e = rw (demand, e) refl
  private_method-requires node running account request send_transaction e = rw (demand, e) refl
  private_method-requires node running account request sign e = rw (demand, e) refl
  private_method-requires node running account request sign_personal e = rw (demand, e) refl
  private_method-requires node running account request sign_personal_spaced e = rw (demand, e) refl

  -- If the handler shows a dialogue or sends a reply for a request whose method is one of those for the
  -- addresses, a transaction or a signature, then the request names the site that it comes from, and
  -- that site has a permission in the list behind the request.
  pub handle_object-IsPermitted :
      (node : Node) (running : Running) (user : User) (account : Str) (request : Fields)
      (m : PrivateMethod) (sys : System L) (o : Outcome L)
      → at_field (codes "method") request ≡ string (method_name m)
      → handle_object L node running user account request sys ≡ some o
      → any_private o.events ≡ true
      → IsPermitted request o.system
  unfolding handle_object
  handle_object-IsPermitted node running user account request m sys o named e h =
      let needs = private_method-requires node running account request m named in
      let (p, checked, e') =
        bind-eq-some (check_permission L node user request sys) _
          (rw (needs, handle_object) at e) in
      subst (λ r. any_private (Outcome.events r) ≡ true → IsPermitted request (Outcome.system r))
        (some_inj e')
        (decide-IsPermitted node running user (demand node running account request) request p
          (check_permission-IsChecked node user request sys p checked))
        h
