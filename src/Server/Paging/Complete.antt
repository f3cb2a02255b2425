-- ===== src/Server/Paging/Complete.antt =====
-- A client that follows the tokens gets every table.
use ice_core.Base.{
  ℕ, zero, suc, ◌+◌, ◌-◌, ◌≤◌, ◌<◌, ◌^◌, ◌≡◌, ◌≢◌, refl, sym, ap, ◌∙◌, false, Option, none, some,
  List, [], ◌++◌, map, ◌==◌, text_eq, text_beq_iff, nat_eq, if◌then◌else◌, Text, length, take, drop,
  arith, inl, inr, Bool-cases, ltb→lt, take-append-drop, ltb, if_true, if_false,
}
use ice_core.Base.Pages.{map-append, drop-drop, length-drop, take_all, length-take}
use ice_core.Base.Int.{ℤ, pos, int_eq, int_beq_iff, add64_small}
use ice_core.Base.Decimal.{parse_int64, format_int}
use ice_core.Base.Digits.{parse_int64-format_int}
use ice_core.Db.Rows.{TableRow, Tables}
use ice_core.Server.{Env, MetadataServer, Reply, response, status}
use ice_core.Server.Tables.{ListTablesResponse, offset_of, next_token}
use ice_core.Server.Sound.{After, On}
use ice_core.Server.Paging.{
  names_of, before_rest, follow, read_all, live_tables, Page, Nowhere, list_tables-Page,
}

module _ (env : Env) (calm : (n : ℕ) → env.pg.fault n ≡ none) (t : Tables) where
  next_token-short :
      (size : ℕ) (token : Text) (count : ℕ)
      → count ≢ size
      → next_token env (pos size) token count ≡ []
  unfolding next_token
  next_token-short size token count h = ground (arith, h, int_beq_iff (pos count) (pos size))

  next_token-full :
      (size offset : ℕ) (token : Text)
      → 0 < size
      → offset + size < 2 ^ 63
      → offset_of env token ≡ pos offset
      → next_token env (pos size) token size ≡ format_int (pos (offset + size))
  unfolding next_token
  next_token-full size offset token p q e =
      rw (e, add64_small offset size q) (ground (arith, p, int_beq_iff (pos size) (pos size)))

  format_int-nonempty : (n : ℕ) → n < 2 ^ 63 → (format_int (pos n) == []) ≡ false
  unfolding parse_int64
  format_int-nonempty n h = elim (Bool-cases (format_int (pos n) == [])) [
    | inl empty ↦ absurd (
        ground (
          arith,
          empty,
          text_beq_iff (format_int (pos n)) [],
          parse_int64-format_int (pos n) (omega arith) h,
        ))
    | inr full ↦ full
  ]

  offset_of-format_int : (n : ℕ) → n < 2 ^ 63 → offset_of env (format_int (pos n)) ≡ pos n
  offset_of-format_int n h =
      ap (λ (o : Option ℤ). elim o [ none ↦ pos 0 | some z ↦ z ])
        (parse_int64-format_int (pos n) (omega arith) h)

  After-follow :
      (Q : ListTablesResponse → MetadataServer → Type 0)
      (next : Text → MetadataServer → Option (List Text)) (names : List Text)
      (o : Option (Reply ListTablesResponse × MetadataServer))
      → After Q (On (Nowhere env calm t)) o
      → ((resp : ListTablesResponse) (s : MetadataServer)
          → Q resp s
          → (if resp.next_page_token == []
              then some (names_of resp)
              else before_rest (names_of resp) (next resp.next_page_token s))
            ≡ some names)
      → follow next o ≡ some names
  After-follow Q next names none h k = absurd h
  After-follow Q next names (some (response resp, s)) h k = k resp s h
  After-follow Q next names (some (status code message, s)) h k = absurd h

  abbrev names_from : ℕ → List Text
  names_from offset = map (λ (r : TableRow). r.table_name) (drop offset (live_tables t))

  joined_names :
      (size offset : ℕ) (names : List Text)
      → names ≡ map (λ (r : TableRow). r.table_name) (take size (drop offset (live_tables t)))
      → names ++ names_from (offset + size) ≡ names_from offset
  joined_names size offset names e =
      ap (λ l. l ++ names_from (offset + size)) e
      ∙ sym (
          map-append _ (take size (drop offset (live_tables t)))
            (drop (offset + size) (live_tables t)))
      ∙ ap
          (λ l. map (λ (r : TableRow). r.table_name) (take size (drop offset (live_tables t)) ++ l))
          (sym (drop-drop offset size (live_tables t)))
      ∙ ap (map (λ (r : TableRow). r.table_name))
          (take-append-drop size (drop offset (live_tables t)))

  read_all-from :
      (fuel size offset : ℕ) (token : Text) (s : MetadataServer)
      → 0 < size
      → size < 2 ^ 31
      → length (live_tables t) < 2 ^ 62
      → offset ≤ length (live_tables t)
      → length (live_tables t) - offset < fuel
      → offset_of env token ≡ pos offset
      → s.partitions.db.committed ≡ t
      → read_all env fuel (pos size) token s ≡ some (names_from offset)
  unfolding read_all
  read_all-from zero size offset token s p q b o f e k = absurd (omega (arith, f))
  read_all-from (suc fuel) size offset token s p q b o f e k =
      After-follow (Page env calm t size offset token) (read_all env fuel (pos size))
        (names_from offset) _ ((list_tables-Page env calm t size offset token p e).at s k)
        (λ resp s' h. elim (Bool-cases (ltb (length (drop offset (live_tables t))) size)) [
          | inl short ↦
              let whole = take_all size (drop offset (live_tables t)) (ltb→lt _ _ short) in
              if_true _ _ (
                ap (λ t. t == [])
                  (h.1
                    ∙ next_token-short size token _
                        (omega (arith, ltb→lt _ _ short, ap length whole))))
              ∙ ap some (h.0 ∙ ap (map (λ (r : TableRow). r.table_name)) whole)
          | inr full ↦
              let there : offset + size ≤ length (live_tables t) =
                ground (arith, full, length-drop offset (live_tables t), o) in
              let fits : offset + size < 2 ^ 63 = omega (arith, there, b) in
              let token_is =
                h.1
                ∙ ap (next_token env (pos size) token) (
                    length-take size (drop offset (live_tables t))
                      (omega (arith, there, length-drop offset (live_tables t))))
                ∙ next_token-full size offset token p fits e in
              if_false _ _ (ap (λ t. t == []) token_is ∙ format_int-nonempty (offset + size) fits)
              ∙ ap (before_rest (names_of resp)) (
                  read_all-from fuel size (offset + size) resp.next_page_token s' p q b there
                    (omega (arith, f, there, p))
                    (ap (offset_of env) token_is ∙ offset_of-format_int (offset + size) fits) h.2)
              ∙ ap some (joined_names size offset (names_of resp) h.0)
        ])

  -- A client that asks for pages of some size and follows the token of each page gets, after at most one
  -- page more than there are live tables, the names of all live tables, in the order of their ids; no statement may fail meanwhile.
  pub read_all_complete :
      (size : ℕ) (s : MetadataServer)
      → 0 < size
      → size < 2 ^ 31
      → length (live_tables t) < 2 ^ 62
      → s.partitions.db.committed ≡ t
      → read_all env (suc (length (live_tables t))) (pos size) [] s
        ≡ some (map (λ (r : TableRow). r.table_name) (live_tables t))
  unfolding parse_int64
  read_all_complete size s p q b k =
      read_all-from _ size 0 [] s p q b (omega arith) (omega arith) refl k
