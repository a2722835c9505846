-- ===== src/Database/Seeding.antt =====
-- The token database after it is opened.
use avme_wallet.Base.{
  bind-eq-some, some_inj, Str, codes, ◌≡◌, refl, sym, ap, subst, Bool, true, some, List, [], ◌∷◌,
  ◌++◌, map,
}
use avme_wallet.Database.{Leveldb, token_db, Handle, Database}
use avme_wallet.Database.Laws.{LeveldbLaws}
use avme_wallet.Database.Operations.{iterate, put_value, all_keys, all_values}
use avme_wallet.Database.Token as Token
use avme_wallet.Database.Storage.{OpenAt, written-OpenAt, put_value-true}
use avme_wallet.Utils.Json.{Json}
use avme_wallet.Pangolin.Contracts.{contracts}
use avme_wallet.Database.Operations as Operations

first_key :
    (front : List (Str × Str)) (key value : Str) (rest : List (Str × Str))
    → (k : Str) × (keys : List Str) × (map (λ p. p.0) (front ++ (key, value) ∷ rest) ≡ k ∷ keys)
first_key [] key value rest = (key, map (λ p. p.0) rest, refl)
first_key (p ∷ front) key value rest = (p.0, map (λ q. q.0) (front ++ (key, value) ∷ rest), refl)

-- The two ends of opening the token database.
seeded :
    (L : Leveldb)
    → LeveldbLaws L
    → (value : Str) (d d' : Database L) → all_values L token_db d ≡ some []
    → put_value L token_db (contracts (codes "AVME")) value d ≡ some (true, d')
    → (k : Str) × (keys : List Str) × (all_keys L token_db d' ≡ some (k ∷ keys))
unfolding all_values all_keys
seeded L laws value d d' listed e =
    let (pairs, iterated, _) = bind-eq-some (iterate L token_db d) _ listed in
    let (path, at, _) = bind-eq-some (Handle.db (d.handles token_db)) _ iterated in
    let key = contracts (codes "AVME") in
    let (done, next) = put_value-true L token_db path key value d d' at e in
    let at' : OpenAt L token_db path d' =
      subst (OpenAt L token_db path) (sym next)
        (written-OpenAt L token_db path (L.put d.disk path key value) d at) in
    let (front, rest, stored) = laws.entries-put d.disk d'.disk path key value done in
    let (k, keys, filled) = first_key front key value rest in
    (k, keys, rw (at', stored, filled) refl)

not_empty :
    (L : Leveldb) (value : Str) (values : List Str) (d : Database L)
    → all_values L token_db d ≡ some (value ∷ values)
    → (k : Str) × (keys : List Str) × (all_keys L token_db d ≡ some (k ∷ keys))
unfolding all_values all_keys
not_empty L value values d listed =
    let (pairs, iterated, e) = bind-eq-some (iterate L token_db d) _ listed in
    rw iterated (key_of pairs (some_inj e))
  where
    key_of :
        (pairs : List (Str × Str))
        → map (λ p. p.1) pairs ≡ value ∷ values
        → (k : Str) × (keys : List Str) × (some (map (λ p. p.0) pairs) ≡ some (k ∷ keys))
    key_of [] e = cc
    key_of (p ∷ pairs) e = (p.0, map (λ p. p.0) pairs, refl)

filled_by :
    (L : Leveldb)
    → LeveldbLaws L
    → (j : Json) (opened : Bool) (values : List Str) (d d' : Database L)
    → all_values L token_db d ≡ some values
    → Token.seed L j opened values d ≡ some (true, d')
    → (k : Str) × (keys : List Str) × (all_keys L token_db d' ≡ some (k ∷ keys))
unfolding Token.seed
filled_by L laws j opened [] d d' listed e =
    let (value, _, put) = bind-eq-some (j.dump (Token.avme L)) _ e in
    seeded L laws value d d' listed put
filled_by L laws j opened (value ∷ values) d d' listed e =
    let same_state : d ≡ d' = ap (λ r. r.1) (some_inj e) in
    subst (λ x. (k : Str) × (keys : List Str) × (all_keys L token_db x ≡ some (k ∷ keys)))
      same_state (not_empty L value values d listed)

-- The token database is never empty once it is open: if opening reports success, it has a key.
pub open_token_db_filled :
    (L : Leveldb)
    → LeveldbLaws L
    → (j : Json) (folder : Str) (d d' : Database L) → Token.open_db L j folder d ≡ some (true, d')
    → (k : Str) × (keys : List Str) × (Token.all_keys L d' ≡ some (k ∷ keys))
unfolding Token.open_db Token.all_keys
open_token_db_filled L laws j folder d d' e =
    let r = Operations.open_at L token_db (folder ++ codes "/wallet/c-avax/tokens") d in
    let (values, listed, e') = bind-eq-some (all_values L token_db r.1) _ e in
    filled_by L laws j r.0 values r.1 d' listed e'
