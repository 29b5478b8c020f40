-- ===== src/IdentityUrls/RoundTrip.antt =====
-- src/activitypub_identity_urls.py: an actor URL is read back.
use text.Mathlib.TextLemmas.{append-nil}
use discord_fediverse_bridge.Base.{
  ◌≡◌, ◌≢◌, refl, sym, ap, ◌∙◌, subst, arith, String, ◌<>◌, true, ◌&&◌, Option, some, ◌!=◌, ==_self,
  string_eq, nat_eq, Result, ok, raised, ◌>>◌, bind-ok,
}
use discord_fediverse_bridge.IdentityUrls.{
  Url, Urllib, ActorKind, service, user, community, kind_value, kind_segment, normalize_origin,
  segment, actor_root, is_origin, url_origin, all_identifier_chars, validate_identifier,
  validate_user_identifier, validate_community_identifier,
}
use discord_fediverse_bridge.IdentityUrls.Address.{
  Address, address_of, build_actor_address, parse_parts, is_actor_url, parse_url,
  parse_local_actor_url,
}
use discord_fediverse_bridge.IdentityUrls.Paths.{
  all_path_chars, actor_path, actor_path-plain, typed_parts-actor_path, coerce-kind_value,
  segment-kind_segment, no_slash,
}
use discord_fediverse_bridge.IdentityUrls.Origins.{
  all_host_chars, Origin, Documented, plain_url, require-true, require-ok, normalize_origin-Origin,
}

validate-plain :
    (kind : ActorKind) (identifier : String) (u : Unit {0})
    → kind ≢ service
    → validate_identifier kind identifier ≡ ok u
    → ((identifier != "") ≡ true) × (all_identifier_chars identifier ≡ true)
unfolding validate_identifier validate_user_identifier validate_community_identifier
validate-plain service identifier u other h = absurd (other refl)
validate-plain user identifier u other h =
    let e = require-true (identifier != "" && all_identifier_chars identifier) h in
    (ground (arith, e), ground (arith, e))
validate-plain community identifier u other h =
    let e = require-true (identifier != "" && all_identifier_chars identifier) h in
    (ground (arith, e), ground (arith, e))

-- a URL that consists of a normalized origin and a plain path
record Split (lib : Urllib) (text path : String) (o : Url) (host : String) (port : Option String)
    : Type 0 where
  pub netloc : String
  pub present : netloc ≢ ""
  pub split : lib.urlsplit (text <> path) ≡ ok (plain_url o.scheme netloc path host port)

module _ (lib : Urllib) (docs : Documented lib) (origin text : String) (o : Origin lib origin text)
    (plain_host : all_host_chars o.host ≡ true) where
  splits_path :
      (path : String) → all_path_chars path ≡ true → Split lib text path o.url o.host o.port
  splits_path path h =
      let (netloc, present, split) =
        docs.splits origin o.url o.host o.port path o.split o.http o.has_host o.has_port plain_host
          h in
      record {
        netloc = netloc;
        present = present;
        split =
            subst
              (λ t.
                lib.urlsplit (t <> path) ≡ ok (plain_url o.url.scheme netloc path o.host o.port))
              (sym o.made) split;
      }

  is_origin-plain :
      (netloc : String)
      → netloc ≢ ""
      → is_origin (plain_url o.url.scheme netloc "" o.host o.port) ≡ true
  unfolding is_origin
  is_origin-plain netloc present = ground (arith, o.http, present)

  -- a normalized origin is its own normal form
  normalize_origin_again : normalize_origin lib text ≡ ok text
  unfolding normalize_origin url_origin
  normalize_origin_again =
      let s = splits_path "" (unfold all_path_chars in refl) in
      let whole : lib.urlsplit text ≡ ok (plain_url o.url.scheme s.netloc "" o.host o.port) =
        subst (λ t. lib.urlsplit t ≡ ok (plain_url o.url.scheme s.netloc "" o.host o.port))
          (append-nil text) s.split in
      rw whole (rw (is_origin-plain s.netloc s.present) (ap ok (sym o.made)))

  module _ (kind : ActorKind) (identifier : String) (user_or_community : kind ≢ service)
      (nonempty : (identifier != "") ≡ true) (plain : all_identifier_chars identifier ≡ true) where
    actor_root-made :
        (origin' : String)
        → normalize_origin lib origin' ≡ ok text
        → validate_identifier kind identifier ≡ ok tt
        → actor_root lib origin' kind identifier ≡ ok (text <> actor_path kind identifier)
    unfolding actor_root segment
    actor_root-made origin' n v = rw n (
        rw v (rw (require-ok (identifier != "") nonempty) (rw (docs.quotes identifier plain) refl)))

    build-made :
        (origin' : String)
        → normalize_origin lib origin' ≡ ok text
        → validate_identifier kind identifier ≡ ok tt
        → build_actor_address lib origin' (kind_value kind) identifier
          ≡ ok (address_of kind identifier (text <> actor_path kind identifier))
    unfolding build_actor_address
    build-made origin' n v = rw (coerce-kind_value kind) (rw (actor_root-made origin' n v) refl)

    parse_parts-made :
        validate_identifier kind identifier ≡ ok tt
        → parse_parts lib text (some (kind_segment kind, identifier))
          ≡ ok (address_of kind identifier (text <> actor_path kind identifier))
    unfolding parse_parts
    parse_parts-made v = rw (segment-kind_segment kind) (
        rw (docs.unquotes identifier plain) (
          rw (require-ok (identifier != "") nonempty)
            (rw (no_slash identifier plain) (build-made text normalize_origin_again v))))

    is_actor_url-plain :
        (netloc path : String)
        → netloc ≢ ""
        → is_actor_url (plain_url o.url.scheme netloc path o.host o.port) ≡ true
    unfolding is_actor_url
    is_actor_url-plain netloc path present = ground (arith, o.http, present)

    parse_url-made :
        (netloc : String)
        → netloc ≢ ""
        → validate_identifier kind identifier ≡ ok tt
        → parse_url lib text
            (plain_url o.url.scheme netloc (actor_path kind identifier) o.host o.port)
          ≡ ok (address_of kind identifier (text <> actor_path kind identifier))
    unfolding parse_url url_origin
    parse_url-made netloc present v =
        rw (is_actor_url-plain netloc (actor_path kind identifier) present) (
          rw (← o.made) (
            rw (==_self text)
              (rw (typed_parts-actor_path kind identifier plain) (parse_parts-made v))))

    parse-made :
        normalize_origin lib origin ≡ ok text
        → validate_identifier kind identifier ≡ ok tt
        → parse_local_actor_url lib origin (text <> actor_path kind identifier)
          ≡ some (address_of kind identifier (text <> actor_path kind identifier))
    unfolding parse_local_actor_url
    parse-made n v =
        let s = splits_path (actor_path kind identifier) (actor_path-plain kind identifier plain) in
        rw n (rw s.split (rw (parse_url-made s.netloc s.present v) refl))

ok-injective : {A : Type 0} {a b : A} → ok a ≡ ok b → a ≡ b
ok-injective e = cc

>>-unit :
    {B : Type 0} (r : Result {0} Unit) (s : Result B) (b : B)
    → (r >> s) ≡ ok b
    → (r ≡ ok tt) × (s ≡ ok b)
>>-unit (ok u) s b h = (refl, h)
>>-unit (raised e) s b h = (cc, cc)

-- the origin and the identifier of an address that was built
built_parts :
    (lib : Urllib) (origin identifier : String) (kind : ActorKind) (a : Address)
    → build_actor_address lib origin (kind_value kind) identifier ≡ ok a
    → (text : String) × (normalize_origin lib origin ≡ ok text)
      × (validate_identifier kind identifier ≡ ok tt)
unfolding build_actor_address actor_root
built_parts lib origin identifier kind a h =
    let rooted = rw (coerce-kind_value kind) at h in
    let (url, root, h1) =
      bind-ok (actor_root lib origin kind identifier) (λ url. ok (address_of kind identifier url)) a
        rooted in
    let (text, n, h2) = bind-ok (normalize_origin lib origin) _ url root in
    let (valid, h3) = >>-unit (validate_identifier kind identifier) _ url h2 in (text, n, valid)

pub parse-build_actor_address :
    (lib : Urllib) (origin identifier : String) (kind : ActorKind) (v : Url) (host : String)
    (a : Address)
    → Documented lib
    → kind ≢ service
    → lib.urlsplit origin ≡ ok v
    → v.hostname ≡ some host
    → all_host_chars host ≡ true
    → build_actor_address lib origin (kind_value kind) identifier ≡ ok a
    → parse_local_actor_url lib origin a.actor_url ≡ some a
parse-build_actor_address lib origin identifier kind v host a docs other split named plain_host h =
    let (text, n, valid) = built_parts lib origin identifier kind a h in
    let o = normalize_origin-Origin lib origin text n in
    let same : o.url ≡ v = ok-injective (sym o.split ∙ split) in
    let same_host : o.host ≡ host = cc (o.has_host, ap (λ (u : Url). u.hostname) same, named) in
    let of_host = subst (λ t. all_host_chars t ≡ true) (sym same_host) plain_host in
    let (nonempty, plain) = validate-plain kind identifier tt other valid in
    let built =
      build-made lib docs origin text o of_host kind identifier other nonempty plain origin n
        valid in
    subst (λ (x : Address). parse_local_actor_url lib origin x.actor_url ≡ some x)
      (ok-injective (sym built ∙ h))
      (parse-made lib docs origin text o of_host kind identifier other nonempty plain n valid)
