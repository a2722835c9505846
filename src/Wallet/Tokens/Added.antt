-- ===== src/Wallet/Tokens/Added.antt =====
-- A token that was added is among the tokens of the wallet.
use avme_wallet.Base.{
  bind-eq-some, some_inj, Str, codes, ◌≡◌, refl, sym, ap, ◌∙◌, subst, true, some, List, map-append,
  [], ◌∷◌, ◌++◌, map,
}
use avme_wallet.Utils.Json.{JsonObject, field, Json, JsonLaws}
use avme_wallet.Database.{Leveldb, token_db, Database}
use avme_wallet.Database.Laws.{LeveldbLaws}
use avme_wallet.Database.Storage.{OpenAt, written-OpenAt, put_value-true}
use avme_wallet.Database.Token as Token
use avme_wallet.Database.Operations as Operations
use avme_wallet.Wallet.{Arc20Token, Wallet}
use avme_wallet.Wallet.Tokens.{
  token_json, token_of_json, parse_tokens, load_arc20_tokens, load_if, add_arc20_token,
}

token_of_json-token_json :
    (t : Arc20Token) (p : JsonObject)
    → ((key : Str) → field key p ≡ field key (token_json t))
    → token_of_json p ≡ some t
unfolding token_of_json token_json
token_of_json-token_json t p same_fields =
    rw
      (
        same_fields (codes "address"),
        same_fields (codes "symbol"),
        same_fields (codes "name"),
        same_fields (codes "decimals"),
        same_fields (codes "avaxPairContract"),
      )
      refl

module _ (L : Leveldb) (j : Json) where
  -- The text of a token that is parsed somewhere gives that token at its place.
  parse_tokens-append :
      (t : Arc20Token) (s : Str)
      → ((p : JsonObject) × (j.parse s ≡ some p) × (token_of_json p ≡ some t))
      → (front rest : List Str) (tokens : List Arc20Token)
      → parse_tokens L j (front ++ s ∷ rest) ≡ some tokens
      → (before after : List Arc20Token) × (tokens ≡ before ++ t ∷ after)
  unfolding parse_tokens
  parse_tokens-append t s (p, parsed, made) [] rest tokens e =
      let (p', parsed', e₁) = bind-eq-some (j.parse s) _ e in
      let same_object : p' ≡ p = some_inj (sym parsed' ∙ parsed) in
      let (t', made', e₂) = bind-eq-some (token_of_json p') _ e₁ in
      let same_token : t' ≡ t = some_inj (sym made' ∙ ap token_of_json same_object ∙ made) in
      let (after, _, e₃) = bind-eq-some (parse_tokens L j rest) _ e₂ in
      ([], after, sym (some_inj e₃) ∙ ap (λ x. x ∷ after) same_token)
  parse_tokens-append t s h (f ∷ front) rest tokens e =
      let (p, _, e₁) = bind-eq-some (j.parse f) _ e in
      let (t', _, e₂) = bind-eq-some (token_of_json p) _ e₁ in
      let (tail, parsed, e₃) = bind-eq-some (parse_tokens L j (front ++ s ∷ rest)) _ e₂ in
      let (before, after, split) = parse_tokens-append t s h front rest tail parsed in
      (t' ∷ before, after, sym (some_inj e₃) ∙ ap (◌∷◌ t') split)

-- Loading from a database with the token's text in it.
loaded-entries :
    (L : Leveldb) (j : Json) (t : Arc20Token) (s key path : Str)
    → ((p : JsonObject) × (j.parse s ≡ some p) × (token_of_json p ≡ some t))
    → (front rest : List (Str × Str)) (w w' : Wallet L) → OpenAt L token_db path w.db
    → L.entries (Database.disk w.db) path ≡ front ++ (key, s) ∷ rest
    → load_arc20_tokens L j w ≡ some w'
    → (before after : List Arc20Token) × (w'.arc20_tokens ≡ before ++ t ∷ after)
unfolding load_arc20_tokens Token.all_values Operations.all_values
loaded-entries L j t s key path h front rest w w' at stored e =
    let (values, listed, e₁) = bind-eq-some (Token.all_values L w.db) _ e in
    let texts : values ≡ map (λ p. p.1) front ++ s ∷ map (λ p. p.1) rest =
      some_inj
        (sym listed ∙ rw (at, stored) (ap some (map-append (λ p. p.1) front ((key, s) ∷ rest)))) in
    let (tokens, parsed, e₂) = bind-eq-some (parse_tokens L j values) _ e₁ in
    let (before, after, split) =
      parse_tokens-append L j t s h (map (λ p. p.1) front) (map (λ p. p.1) rest) tokens
        (subst (λ x. parse_tokens L j x ≡ some tokens) texts parsed) in
    (before, after, sym (ap (λ x. Wallet.arc20_tokens x) (some_inj e₂)) ∙ split)

-- A token that was added with success is among the tokens of the wallet, with all that is stored of it.
pub add_arc20_token-loaded :
    (L : Leveldb) (j : Json)
    → LeveldbLaws L
    → JsonLaws j
    → (path : Str) (token : Arc20Token) (w w' : Wallet L) → OpenAt L token_db path w.db
    → add_arc20_token L j token w ≡ some (true, w')
    → (before after : List Arc20Token) × (w'.arc20_tokens ≡ before ++ token ∷ after)
unfolding add_arc20_token Token.put_value load_if
add_arc20_token-loaded L j laws json path token w w' at e =
    let (s, dumped, e₁) = bind-eq-some (j.dump (token_json token)) _ e in
    let (r, put, e₂) = bind-eq-some (Operations.put_value L token_db token.address s w.db) _ e₁ in
    let (w₁, loaded, e₃) = bind-eq-some (load_if L j r.0 (record w { db = r.1 })) _ e₂ in
    let reported : r.0 ≡ true = ap (λ x. x.0) (some_inj e₃) in
    let same_wallet : w₁ ≡ w' = ap (λ x. x.1) (some_inj e₃) in
    let put' : Operations.put_value L token_db token.address s w.db ≡ some (true, r.1) =
      put ∙ ap (λ b. some (b, r.1)) reported in
    let (done, next) = put_value-true L token_db path token.address s w.db r.1 at put' in
    let (front, rest, stored) =
      laws.entries-put (Database.disk w.db) (Database.disk r.1) path token.address s done in
    let (p, parsed, same_fields) = json.parse-dump (token_json token) s dumped in
    loaded-entries L j token s token.address path
      (p, parsed, token_of_json-token_json token p same_fields) front rest (record w { db = r.1 })
      w'
      (subst (OpenAt L token_db path) (sym next)
        (written-OpenAt L token_db path (L.put (Database.disk w.db) path token.address s) w.db at))
      stored
      (subst (λ b. load_if L j b (record w { db = r.1 }) ≡ some w') reported
        (loaded ∙ ap some same_wallet))
