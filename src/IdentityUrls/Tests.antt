-- ===== src/IdentityUrls/Tests.antt =====
-- src/activitypub_identity_urls.py: a `urllib.parse` that knows one origin, and an actor there.
use Prim.Native.Char.{code}
use Prim.Native.String.{[], ◌∷◌}
use text.Mathlib.TextLemmas.{nil-append, cons-append}
use discord_fediverse_bridge.Base.{
  ◌≡◌, ◌≢◌, refl, ap, arith, String, ◌<>◌, Bool, true, false, Option, none, some, ◌==◌, ==_self,
  string_eq, nat_eq, if◌then◌else◌, Result, ok, raised, value_error,
}
use discord_fediverse_bridge.IdentityUrls.{
  Url, Urllib, service, user, is_origin, origin_text, url_origin, normalize_origin, segment,
  actor_root, coerce_kind, validate_identifier, validate_user_identifier, all_identifier_chars,
  is_identifier_char,
}
use discord_fediverse_bridge.IdentityUrls.Address.{
  Address, address_of, build_actor_address, parse_local_actor_url,
}
use discord_fediverse_bridge.IdentityUrls.Origins.{all_host_chars, Documented, plain_url}
use discord_fediverse_bridge.IdentityUrls.RoundTrip.{parse-build_actor_address}

strip_prefix : String → String → Option String
strip_prefix [] s = some s
strip_prefix (p ∷ ps) [] = none
strip_prefix (p ∷ ps) (c ∷ s) =
    let rest = strip_prefix ps s in if code c == code p then rest else none

strip_prefix-append : (p s : String) → strip_prefix p (p <> s) ≡ some s
unfolding strip_prefix
strip_prefix-append [] s = rw (nil-append s) refl
strip_prefix-append (c ∷ p) s =
    rw (cons-append c p s) (rw (==_self (code c)) (strip_prefix-append p s))

abbrev split_rest : Option String → Result Url
split_rest none = raised value_error
split_rest (some rest) = ok (plain_url "https" "b.example" rest "b.example" none)

abbrev lib : Urllib
lib = record {
  urlsplit = λ text. split_rest (strip_prefix "https://b.example" text);
  quote = λ text. text;
  unquote = λ text. text;
}

-- the three fields that a split URL shares with every other
Known : Url → Type 0
Known v = (v.scheme ≡ "https") × (v.hostname ≡ some "b.example") × (v.port ≡ ok none)

split_rest-Known : (o : Option String) (v : Url) → split_rest o ≡ ok v → Known v
unfolding Known
split_rest-Known none v h = absurd (ground (arith, h))
split_rest-Known (some rest) v h = ground (arith, h)

abbrev is_empty_text : String → Bool
is_empty_text text = text == ""

named : ◌≢◌ {A = String} "b.example" ""
unfolding string_eq
named e = let wrong : false ≡ true = ap is_empty_text e in ground (arith, wrong)

splits :
    (text : String) (v : Url) (host : String) (port : Option String) (path : String)
    → split_rest (strip_prefix "https://b.example" text) ≡ ok v
    → v.hostname ≡ some host
    → v.port ≡ ok port
    → (netloc : String) × (netloc ≢ "")
      × (split_rest (strip_prefix "https://b.example" (origin_text v.scheme host port <> path))
          ≡ ok (plain_url v.scheme netloc path host port))
unfolding Known
splits text v host port path h hostname numbered =
    let (scheme, a, b) = split_rest-Known _ v h in
    let same_host : "b.example" ≡ host = cc (a, hostname) in
    let same_port : none ≡ port = cc (b, numbered) in
    (
      "b.example",
      named,
      rw scheme (
          rw (← same_host)
            (rw (← same_port) (rw (strip_prefix-append "https://b.example" path) refl))),
    )

documented : Documented lib
documented = record {
  quotes = λ text h. refl;
  unquotes = λ text h. refl;
  splits = λ text v host port path split http hostname numbered plain_host plain.
      splits text v host port path split hostname numbered;
}

abbrev bobs : Address
bobs = address_of user "bob" "https://b.example/actors/users/bob"

builds_bob : build_actor_address lib "https://b.example" "user" "bob" ≡ ok bobs
unfolding build_actor_address actor_root coerce_kind normalize_origin is_origin url_origin segment
    validate_identifier validate_user_identifier all_identifier_chars is_identifier_char
    strip_prefix string_eq nat_eq
builds_bob = refl

user-ne-service : user ≢ service
user-ne-service e = cc

splits_origin :
    lib.urlsplit "https://b.example" ≡ ok (plain_url "https" "b.example" "" "b.example" none)
unfolding strip_prefix nat_eq
splits_origin = refl

plain_host : all_host_chars "b.example" ≡ true
unfolding all_host_chars is_identifier_char nat_eq
plain_host = refl

parse-build_actor_address_example :
    parse_local_actor_url lib "https://b.example" bobs.actor_url ≡ some bobs
parse-build_actor_address_example =
    parse-build_actor_address lib "https://b.example" "bob" user
      (plain_url "https" "b.example" "" "b.example" none) "b.example" bobs documented
      user-ne-service splits_origin refl plain_host builds_bob
