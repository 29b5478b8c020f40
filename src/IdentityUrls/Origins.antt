-- ===== src/IdentityUrls/Origins.antt =====
-- src/activitypub_identity_urls.py: what an origin is made of, and what is known of urllib.
use Prim.Native.Char.{code}
use Prim.Native.String.{[], ◌∷◌}
use discord_fediverse_bridge.Base.{
  ◌≡◌, ◌≢◌, refl, arith, String, ◌<>◌, Bool, true, false, Option, none, some, string_eq, nat_eq,
  ◌||◌, ◌&&◌, ◌==◌, Result, ok, raised, ◌>>◌, bind-ok,
}
use discord_fediverse_bridge.IdentityUrls.{
  Url, Urllib, normalize_origin, is_identifier_char, is_http, is_origin, origin_text, origin_parts,
  url_origin, require, all_identifier_chars,
}
use discord_fediverse_bridge.IdentityUrls.Paths.{all_path_chars}

abbrev pub plain_url : String → String → String → String → Option String → Url
plain_url scheme netloc path host port = record {
  scheme = scheme;
  netloc = netloc;
  username = none;
  password = none;
  path = path;
  query = "";
  fragment = "";
  hostname = some host;
  port = ok port;
}

-- a host name or an IPv4 address, as urlsplit gives it: lower-case letters, digits, dots, hyphens and
-- underscores
unfoldable pub all_host_chars : String → Bool
all_host_chars [] = true
all_host_chars (c ∷ s) = (is_identifier_char (code c) || code c == 46) && all_host_chars s

-- What is documented of `urllib.parse`: `quote` and `unquote` leave unreserved characters alone, and
-- an http URL that is put together of a host name or an IPv4 address, a port and a plain path is taken
-- apart into them.
pub record Documented (lib : Urllib) : Type 0 where
  pub quotes : (text : String) → all_identifier_chars text ≡ true → lib.quote text ≡ text
  pub unquotes : (text : String) → all_identifier_chars text ≡ true → lib.unquote text ≡ text
  pub splits :
      (text : String) (v : Url) (host : String) (port : Option String) (path : String)
      → lib.urlsplit text ≡ ok v
      → is_http v.scheme ≡ true
      → v.hostname ≡ some host
      → v.port ≡ ok port
      → all_host_chars host ≡ true
      → all_path_chars path ≡ true
      → (netloc : String) × (netloc ≢ "")
        × (lib.urlsplit (origin_text v.scheme host port <> path)
            ≡ ok (plain_url v.scheme netloc path host port))

-- what a normalized origin is made of
pub record Origin (lib : Urllib) (origin text : String) : Type 0 where
  pub url : Url
  pub host : String
  pub port : Option String
  pub split : lib.urlsplit origin ≡ ok url
  pub http : is_http url.scheme ≡ true
  pub has_host : url.hostname ≡ some host
  pub has_port : url.port ≡ ok port
  pub made : text ≡ origin_text url.scheme host port

pub require-true : (b : Bool) {u : Unit {0}} → require b ≡ ok u → b ≡ true
require-true true h = refl
require-true false h = cc

pub require-ok : (b : Bool) → b ≡ true → require b ≡ ok tt
require-ok b h = rw h refl

pub >>-ok :
    {B : Type 0} (b : Bool) (s : Result B) (a : B)
    → (require b >> s) ≡ ok a
    → (b ≡ true) × (s ≡ ok a)
>>-ok true s a h = (refl, h)
>>-ok false s a h = (cc, cc)

pub origin_parts-ok :
    (scheme : String) (host : Option String) (port : Result (Option String)) (text : String)
    → origin_parts scheme host port ≡ ok text
    → (h : String) × (p : Option String) × (host ≡ some h)
      × (port ≡ ok p)
      × (text ≡ origin_text scheme h p)
origin_parts-ok scheme none port text e = ("", none, cc, cc, cc)
origin_parts-ok scheme (some h) (raised x) text e = ("", none, cc, cc, cc)
origin_parts-ok scheme (some h) (ok p) text e = (h, p, refl, refl, cc)

pub normalize_origin-Origin :
    (lib : Urllib) (origin text : String)
    → normalize_origin lib origin ≡ ok text
    → Origin lib origin text
unfolding normalize_origin url_origin
normalize_origin-Origin lib origin text h =
    let (v, split, h1) =
      bind-ok (lib.urlsplit origin) (λ parsed. require (is_origin parsed) >> url_origin parsed) text
        h in
    let (tests, h2) = >>-ok (is_origin v) (url_origin v) text h1 in
    let (host, port, named, numbered, made) = origin_parts-ok v.scheme v.hostname v.port text h2 in
    record {
      url = v;
      host = host;
      port = port;
      split = split;
      http = unfold is_origin in ground (arith, tests);
      has_host = named;
      has_port = numbered;
      made = made;
    }
