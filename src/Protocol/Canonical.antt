-- ===== src/Protocol/Canonical.antt =====
-- novo_chat/protocol.py: `canonicalize_path`, `canonicalize_query` and `validate_request_id`. A
-- function answers none where the source raises ValueError.
use Prim.Native.Nat.{Ordering}
use Prim.Native.String.{compare, ◌++◌ as append_text}
use novo_chat.Base.{
  ℕ, String, Bool, true, false, not, ◌&&◌, ◌||◌, Option, none, some, List, [], ◌∷◌, ◌==◌, nat_eq,
  string_eq, map, if◌then◌else◌, any, ltb,
}
use novo_chat.Protocol.Tokens.{codes}

-- `urllib.parse` and `uuid`: `unquote` and `parse_qsl` with errors="strict", `quote` with the safe
-- characters of each call, and the version and the canonical text of a UUID.
pub record UrlLibrary : Type 0 where
  pub unquote : String → Option String
  pub quote_path : String → String
  pub quote_query : String → String
  pub parse_qsl : String → Option (List (String × String))
  pub parse_uuid : String → Option (ℕ × String)

-- `text.split("/")`, over code points, with the segment read so far in reverse
unfoldable pub split_from : List ℕ → List ℕ → List (List ℕ)
split_from segment [] = segment ∷ []
split_from segment (c ∷ cs) =
    let closed = split_from [] cs in
    let longer = split_from (c ∷ segment) cs in if c == b'/' then segment ∷ closed else longer

-- `segment in {".", ".."}`, which read the same in reverse
abbrev pub is_relative : List ℕ → Bool
is_relative (a ∷ []) = a == b'.'
is_relative (a ∷ b ∷ []) = a == b'.' && b == b'.'
is_relative _ = false

abbrev pub starts_with_slash : List ℕ → Bool
starts_with_slash [] = false
starts_with_slash (c ∷ _) = c == b'/'

-- The test on the path as it is written.
unfoldable pub is_plain_path : List ℕ → Bool
is_plain_path cs = starts_with_slash cs && not (any (λ c. c == b'?' || c == b'#' || c == 92) cs)

-- The tests on the decoded path.
unfoldable pub is_clean_path : List ℕ → Bool
unfolding split_from
is_clean_path cs = not (any (λ c. ltb c 32) cs) && not (any is_relative (split_from [] cs))

abbrev pub pair_before : String × String → String × String → Bool
pair_before (a, x) (b, y) = elim (compare a b) [
  | Ordering.lt ↦ true
  | Ordering.gt ↦ false
  | Ordering.eq ↦ elim (compare x y) [ Ordering.gt ↦ false | _ ↦ true ]
]

unfoldable pub insert_pair : String × String → List (String × String) → List (String × String)
insert_pair p [] = p ∷ []
insert_pair p (q ∷ qs) =
    let later = insert_pair p qs in if pair_before p q then p ∷ q ∷ qs else q ∷ later

-- `encoded.sort()`
unfoldable pub sort_pairs : List (String × String) → List (String × String)
unfolding insert_pair
sort_pairs [] = []
sort_pairs (p ∷ ps) = insert_pair p (sort_pairs ps)

-- `"&".join(f"{key}={value}" …)`
unfoldable pub join_pairs : List (String × String) → String
join_pairs [] = ""
join_pairs ((k, v) ∷ []) = append_text k (append_text "=" v)
join_pairs ((k, v) ∷ more) =
    append_text k (append_text "=" (append_text v (append_text "&" (join_pairs more))))

module _ (url : UrlLibrary) where
  open url use {unquote, quote_path, quote_query, parse_qsl, parse_uuid}

  unfoldable pub canonicalize_path : String → Option String
  unfolding is_plain_path is_clean_path
  canonicalize_path path = if not (is_plain_path (codes path)) then none else elim (unquote path) [
    | none ↦ none
    | some decoded ↦ if is_clean_path (codes decoded) then some (quote_path decoded) else none
  ]

  -- The branch for a text.
  unfoldable pub canonicalize_query : String → Option String
  unfolding sort_pairs join_pairs
  canonicalize_query query = elim (parse_qsl query) [
    | none ↦ none
    | some pairs ↦ some (
        join_pairs
          (sort_pairs (map (λ (p : String × String). (quote_query p.0, quote_query p.1)) pairs)))
  ]

  unfoldable pub validate_request_id : String → Option String
  validate_request_id value = elim (parse_uuid value) [
    | none ↦ none
    | some (version, canonical) ↦ if version == 4 then some canonical else none
  ]
