-- ===== src/Wallet/Accounts/Loaded.antt =====
-- The accounts of the wallet are those of its key store.
use avme_wallet.Base.{
  Bool-cases, Option-cases, Str, codes, same, same→eq, same_refl, ◌≡◌, refl, sym, ap, ◌∙◌, subst,
  ◌↔◌, ◌⊎◌, inl, inr, Bool, true, false, ◌||◌, none, some, List, [], ◌∷◌, ◌++◌, arith,
}
use avme_wallet.Wallet.Accounts.{
  Keys, has, emplace, State, load_keys, load_accounts, account_exists,
}

or-cases : (a b : Bool) → (a || b) ≡ true → (a ≡ true) ⊎ (b ≡ true)
or-cases true b h = inl refl
or-cases false b h = inr h

or_right : (a b : Bool) → b ≡ true → (a || b) ≡ true
or_right true b h = refl
or_right false b h = h

or_left : (a b : Bool) → a ≡ true → (a || b) ≡ true
or_left true b h = refl
or_left false b h = cc

or_assoc : (a b c : Bool) → (a || (b || c)) ≡ ((a || b) || c)
or_assoc true b c = refl
or_assoc false b c = refl

or_false : (a : Bool) → (a || false) ≡ a
or_false true = refl
or_false false = refl

has-cons : (key k v : Str) (m : List (Str × Str)) → has key ((k, v) ∷ m) ≡ (same k key || has key m)
has-cons key k v m = ground arith

has-append :
    (key k v : Str) (m : List (Str × Str)) → has key (m ++ (k, v) ∷ []) ≡ (has key m || same k key)
has-append key k v [] = ground arith
has-append key k v ((j, w) ∷ m) =
    has-cons key j w (m ++ (k, v) ∷ [])
    ∙ ap (λ b. same j key || b) (has-append key k v m)
    ∙ or_assoc (same j key) (has key m) (same k key)
    ∙ ap (λ b. b || same k key) (sym (has-cons key j w m))

-- After `emplace` a map has its old keys and the new one.
has-emplace :
    (key k v : Str) (m : List (Str × Str)) → has key (emplace k v m) ≡ (has key m || same k key)
has-emplace key k v m = elim (Bool-cases (has k m)) [
  | inl old ↦ rw old (elim (Bool-cases (same k key)) [
    | inl y ↦
        let there : has key m ≡ true = subst (λ x. has x m ≡ true) (same→eq k key y) old in
        there ∙ sym (or_left (has key m) (same k key) there)
    | inr n ↦ rw n (sym (or_false (has key m)))
  ])
  | inr new ↦ rw new (has-append key k v m)
]

module _ (K : Keys) (km : K.Manager) where
  -- A key of the store whose account has this address text.
  abbrev pub IsKeyOf : Str → Str → Type 0
  IsKeyOf account u =
      (a : K.Address) × (K.address_of km u ≡ some a) × (codes "0x" ++ K.address_text a ≡ account)

  load_nil : (m : List (Str × Str)) → load_keys K km [] m ≡ m
  unfolding load_keys
  load_nil m = refl

  load_none :
      (u : Str) (keys : List Str) (m : List (Str × Str))
      → K.address_of km u ≡ none
      → load_keys K km (u ∷ keys) m ≡ load_keys K km keys m
  unfolding load_keys
  load_none u keys m e = rw (e, load_keys) refl

  load_some :
      (u : Str) (keys : List Str) (m : List (Str × Str)) (a : K.Address)
      → K.address_of km u ≡ some a
      → load_keys K km (u ∷ keys) m
        ≡ load_keys K km keys (emplace (codes "0x" ++ K.address_text a) (K.account_name km a) m)
  unfolding load_keys
  load_some u keys m a e = rw (e, load_keys) refl

  load_keys-has :
      (account : Str) (keys : List Str) (m : List (Str × Str))
      → has account m ≡ true
      → has account (load_keys K km keys m) ≡ true
  load_keys-has account [] m h = ap (has account) (load_nil m) ∙ h
  load_keys-has account (u ∷ keys) m h = elim (Option-cases (K.address_of km u)) [
    | inl e ↦ rw (load_none u keys m e) (load_keys-has account keys m h)
    | inr (a, e) ↦
        let text = codes "0x" ++ K.address_text a in
        rw (load_some u keys m a e) (
          load_keys-has account keys (emplace text (K.account_name km a) m) (
            has-emplace account text (K.account_name km a) m
            ∙ or_left (has account m) (same text account) h))
  ]

  has-load_keys :
      (account : Str) (keys : List Str) (m : List (Str × Str))
      → has account (load_keys K km keys m) ≡ true
      → (has account m ≡ true)
        ⊎ ((front rest : List Str) × (u : Str) × (keys ≡ front ++ u ∷ rest) × IsKeyOf account u)
  has-load_keys account [] m h = inl (ap (has account) (sym (load_nil m)) ∙ h)
  has-load_keys account (u ∷ keys) m h = elim (Option-cases (K.address_of km u)) [
    | inl e ↦
        elim (has-load_keys account keys m (ap (has account) (sym (load_none u keys m e)) ∙ h)) [
          | inl y ↦ inl y
          | inr (front, rest, v, split, key) ↦ inr (u ∷ front, rest, v, ap (◌∷◌ u) split, key)
        ]
    | inr (a, e) ↦
        let text = codes "0x" ++ K.address_text a in
        let next = emplace text (K.account_name km a) m in
        elim (has-load_keys account keys next
          (ap (has account) (sym (load_some u keys m a e)) ∙ h)) [
            | inr (front, rest, v, split, key) ↦ inr (u ∷ front, rest, v, ap (◌∷◌ u) split, key)
            | inl y ↦
                elim (or-cases (has account m) (same text account)
                  (sym (has-emplace account text (K.account_name km a) m) ∙ y)) [
                    | inl old ↦ inl old
                    | inr new ↦ inr ([], keys, u, refl, (a, e, same→eq text account new))
                  ]
          ]
  ]

  key-has :
      (account u : Str) (front rest : List Str) (m : List (Str × Str))
      → IsKeyOf account u
      → has account (load_keys K km (front ++ u ∷ rest) m) ≡ true
  key-has account u [] rest m (a, e, text) = rw (load_some u rest m a e) (
      load_keys-has account rest (emplace (codes "0x" ++ K.address_text a) (K.account_name km a) m)
        (has-emplace account (codes "0x" ++ K.address_text a) (K.account_name km a) m
          ∙ or_right (has account m) _ (ap (λ x. same x account) text ∙ same_refl account)))
  key-has account u (v ∷ front) rest m key = elim (Option-cases (K.address_of km v)) [
    | inl e ↦ rw (load_none v (front ++ u ∷ rest) m e) (key-has account u front rest m key)
    | inr (a, e) ↦ rw (load_some v (front ++ u ∷ rest) m a e) (key-has account u front rest _ key)
  ]

-- An account exists behind loadAccounts exactly if the key store has a key whose address has that text.
pub account_exists-load_accounts :
    (K : Keys) (account : Str) (s : State K)
    → (account_exists K account (load_accounts K s) ≡ true) ↔ (
        (front rest : List Str) × (u : Str) × (K.keys (State.km s) ≡ front ++ u ∷ rest)
        × IsKeyOf K (State.km s) account u)
unfolding account_exists load_accounts
account_exists-load_accounts K account s = (
  λ h. elim (has-load_keys K (State.km s) account (K.keys (State.km s)) [] h) [
    | inl y ↦ cc
    | inr key ↦ key
  ],
  λ (front, rest, u, split, key). rw split (key-has K (State.km s) account u front rest [] key),
)
