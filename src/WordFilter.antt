-- ===== src/WordFilter.antt =====
-- FKGRpc_WordFilter/Framework/Service.go: dirty words are replaced by stars.
-- The segmenter, `strings.ToUpper`, `strings.TrimSpace` and `utf8.RuneCount` are parameters, and so is
-- `spare`, what the array behind `replaceByte` has past its 50 bytes. A panic is `none`.
pub mod Clean
mod Tests
use fkgo_server.Base.{
  ℕ, zero, suc, ◌+◌, ◌-◌, ◌*◌, ◌/◌, ◌%◌, ◌^◌, ◌≤◌, ◌<◌, min, ◌≡◌, refl, sym, ap, ap₂, ◌∙◌, subst,
  ◌≢◌, ◌↔◌, ◌⊎◌, inl, inr, Bool, true, false, ◌&&◌, ◌||◌, not, Option, none, some, List, [], ◌∷◌,
  ◌++◌, map, append_assoc, append-nil, arith, dec_lt, ℕ_discrete, length, get_elem?, set, take,
  drop, replicate, length-append, length-take, length-drop, length-replicate, length-map,
  take-append-drop, take-append, drop-append, append_cons, take_at, drop_at, drop-drop, set-take,
  set-drop, set-append, set_at, get_elem?-append, ltb, leb, ◌==◌, if◌then◌else◌, ltb→lt, lt→ltb,
  leb→le, ==_iff, tests, Bool-cases, Option-cases, if_both,
}
use fkgo_server.Base.Map.{GoMap, lookup, put, bytes_eq}

abbrev pub replace_to : ℕ
replace_to = 42

abbrev pub replace_count : ℕ
replace_count = 50

-- The first part of `strings.Split(line, " ")`.
unfoldable pub first_word : List ℕ → List ℕ
first_word [] = []
first_word (c ∷ line) = if c == 32 then [] else c ∷ first_word line

-- `Split` never gives an empty list; an empty first word is no entry.
unfoldable pub add_word : List ℕ → GoMap (List ℕ) Bool → GoMap (List ℕ) Bool
add_word [] words = words
add_word (c ∷ word) words = put (c ∷ word) true words

abbrev pub holds : Option Bool → Bool
holds none = false
holds (some b) = b

-- `xs[start:end]`, for an end within the length
unfoldable pub slice_of : List ℕ → ℕ → ℕ → Option (List ℕ)
slice_of xs start end =
    if leb start end && leb end (length xs) then some (take (end - start) (drop start xs)) else none

unfoldable pub append_to : List ℕ → Option (List ℕ) → Option (List ℕ)
append_to clean none = none
append_to clean (some word) = some (clean ++ word)

module _ (to_upper trim_space : List ℕ → List ℕ) (rune_count : List ℕ → ℕ) (spare : List ℕ) where
  -- The loop of `Func_Init` over the lines of the file.
  unfoldable pub load : List (List ℕ) → GoMap (List ℕ) Bool → GoMap (List ℕ) Bool
  load [] words = words
  load (line ∷ lines) words = load lines (add_word (first_word (to_upper (trim_space line))) words)

  abbrev pub is_dirty : GoMap (List ℕ) Bool → List ℕ → Bool
  is_dirty dirty_words word = holds (lookup (to_upper word) dirty_words)

  -- What a segment is replaced by.
  unfoldable pub clean_word : GoMap (List ℕ) Bool → List ℕ → Option (List ℕ)
  clean_word dirty_words word =
      if is_dirty dirty_words word
      then slice_of (replicate replace_count replace_to ++ spare) 0 (rune_count word)
      else some word

  unfoldable pub filter_next :
      (List ℕ → Option (List ℕ)) → List ℕ → Option (List ℕ) → Option (List ℕ)
  filter_next rest clean none = none
  filter_next rest clean (some word) = rest (clean ++ word)

  unfoldable pub clean_at : GoMap (List ℕ) Bool → Option (List ℕ) → Option (List ℕ)
  clean_at dirty_words none = none
  clean_at dirty_words (some word) = clean_word dirty_words word

  -- The loop of `Filter` over the segments, each by its start and its end.
  unfoldable pub filter_from :
      GoMap (List ℕ) Bool → List ℕ → List (ℕ × ℕ) → List ℕ → Option (List ℕ)
  filter_from dirty_words bin [] clean = some clean
  filter_from dirty_words bin ((start, end) ∷ segments) clean =
      filter_next (filter_from dirty_words bin segments) clean
        (clean_at dirty_words (slice_of bin start end))

  unfoldable pub filter : GoMap (List ℕ) Bool → List ℕ → List (ℕ × ℕ) → Option (List ℕ)
  filter dirty_words bin segments = filter_from dirty_words bin segments []
