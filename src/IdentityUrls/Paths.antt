-- ===== src/IdentityUrls/Paths.antt =====
-- src/activitypub_identity_urls.py: the path of an actor URL.
use Prim.Native.Char.{code}
use Prim.Native.String.{[], ◌∷◌}
use text.Mathlib.TextLemmas.{nil-append, cons-append, append_assoc}
use discord_fediverse_bridge.Base.{
  ◌≡◌, refl, sym, ap, ◌∙◌, arith, String, ◌<>◌, Bool, true, false, ◌&&◌, ◌||◌, some, List, ◌==◌,
  string_eq, nat_eq, ok,
}
use discord_fediverse_bridge.IdentityUrls.{
  ActorKind, service, user, community, kind_value, kind_segment, coerce_kind, segment_kind,
  has_char, all_identifier_chars, is_identifier_char,
}
use discord_fediverse_bridge.IdentityUrls.Address.{split_path, typed_parts}

-- nothing, or segments of unreserved characters behind slashes
unfoldable pub all_path_chars : String → Bool
unfolding is_identifier_char
all_path_chars [] = true
all_path_chars (c ∷ s) = (is_identifier_char (code c) || code c == b'/') && all_path_chars s

-- a text of unreserved characters is one segment
pub split_path-plain :
    (s : String) → all_identifier_chars s ≡ true → split_path s ≡ List.◌∷◌ s List.[]
unfolding split_path all_identifier_chars is_identifier_char
split_path-plain [] h = refl
split_path-plain (c ∷ s) h =
    let e = split_path-plain s (ground arith) in
    let other : (code c == b'/') ≡ false = ground arith in rw (other, e) refl

pub all_path_chars-plain : (s : String) → all_identifier_chars s ≡ true → all_path_chars s ≡ true
unfolding all_path_chars all_identifier_chars
all_path_chars-plain [] h = refl
all_path_chars-plain (c ∷ s) h = ground (arith, all_path_chars-plain s)

pub all_path_chars-append :
    (s t : String) → all_path_chars (s <> t) ≡ (all_path_chars s && all_path_chars t)
unfolding all_path_chars
all_path_chars-append [] t = ap all_path_chars (nil-append t)
all_path_chars-append (c ∷ s) t = rw (cons-append c s t) (ground (arith, all_path_chars-append s t))

pub split_path-segment :
    (s t : String)
    → all_identifier_chars s ≡ true
    → split_path (s <> "/" <> t) ≡ List.◌∷◌ s (split_path t)
unfolding split_path all_identifier_chars is_identifier_char nat_eq
split_path-segment [] t h = rw (nil-append ("/" <> t), cons-append "/" [] t, nil-append t) refl
split_path-segment (c ∷ s) t h =
    let e = split_path-segment s t (ground arith) in
    let other : (code c == b'/') ≡ false = ground arith in
    rw (cons-append c s ("/" <> t), other, e) refl

abbrev pub actor_path : ActorKind → String → String
actor_path kind identifier = "/actors/" <> kind_segment kind <> "/" <> identifier

pub kind_segment-plain : (kind : ActorKind) → all_identifier_chars (kind_segment kind) ≡ true
unfolding all_identifier_chars is_identifier_char nat_eq
kind_segment-plain service = refl
kind_segment-plain user = refl
kind_segment-plain community = refl

pub actor_path-plain :
    (kind : ActorKind) (identifier : String)
    → all_identifier_chars identifier ≡ true
    → all_path_chars (actor_path kind identifier) ≡ true
unfolding all_path_chars is_identifier_char nat_eq
actor_path-plain kind identifier h =
    let rest = kind_segment kind <> "/" <> identifier in
    let slash : all_path_chars "/" ≡ true = refl in
    let actors : all_path_chars "/actors/" ≡ true = refl in
    ground (
      arith,
      all_path_chars-append "/actors/" rest,
      all_path_chars-append (kind_segment kind) ("/" <> identifier),
      all_path_chars-append "/" identifier,
      all_path_chars-plain identifier h,
      all_path_chars-plain (kind_segment kind) (kind_segment-plain kind),
      slash,
      actors,
    )

pub split_path-actor_path :
    (kind : ActorKind) (identifier : String)
    → all_identifier_chars identifier ≡ true
    → split_path (actor_path kind identifier)
      ≡ List.◌∷◌ "" (List.◌∷◌ "actors" (List.◌∷◌ (kind_segment kind) (List.◌∷◌ identifier List.[])))
unfolding all_identifier_chars is_identifier_char nat_eq
split_path-actor_path kind identifier h =
    let rest = kind_segment kind <> "/" <> identifier in
    let parts : "/actors/" <> rest ≡ "" <> "/" <> "actors" <> "/" <> rest =
      append_assoc "/actors" "/" rest
      ∙ append_assoc "/" "actors" ("/" <> rest)
      ∙ sym (nil-append ("/" <> "actors" <> "/" <> rest)) in
    ap split_path parts
    ∙ split_path-segment "" ("actors" <> "/" <> rest) refl
    ∙ ap (List.◌∷◌ "") (split_path-segment "actors" rest refl)
    ∙ ap (λ ps. List.◌∷◌ "" (List.◌∷◌ "actors" ps))
        (split_path-segment (kind_segment kind) identifier (kind_segment-plain kind))
    ∙ ap (λ ps. List.◌∷◌ "" (List.◌∷◌ "actors" (List.◌∷◌ (kind_segment kind) ps)))
        (split_path-plain identifier h)

pub typed_parts-actor_path :
    (kind : ActorKind) (identifier : String)
    → all_identifier_chars identifier ≡ true
    → typed_parts (split_path (actor_path kind identifier)) ≡ some (kind_segment kind, identifier)
unfolding typed_parts string_eq
typed_parts-actor_path kind identifier h = rw (split_path-actor_path kind identifier h) refl

pub coerce-kind_value : (kind : ActorKind) → coerce_kind (kind_value kind) ≡ ok kind
unfolding coerce_kind string_eq
coerce-kind_value service = refl
coerce-kind_value user = refl
coerce-kind_value community = refl

pub segment-kind_segment : (kind : ActorKind) → segment_kind (kind_segment kind) ≡ some kind
unfolding segment_kind string_eq
segment-kind_segment service = refl
segment-kind_segment user = refl
segment-kind_segment community = refl

pub no_slash : (s : String) → all_identifier_chars s ≡ true → has_char b'/' s ≡ false
unfolding all_identifier_chars is_identifier_char has_char
no_slash [] h = refl
no_slash (c ∷ s) h = ground (arith, no_slash s)
