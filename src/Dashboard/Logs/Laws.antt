-- ===== src/Dashboard/Logs/Laws.antt =====
-- Which entries the dashboard shows.
use mathlib.Core.List.{Perm}
use jig_mcp.Prelude.{
  ◌-◌, ℕ, min, ◌≤◌, zero, suc, Str, lit, none, List, [], ◌∷◌, ◌++◌, Bool, true, false, ◌==◌,
  contains, length, take, drop, take-append-drop, length-take, length-sort_by, ltb, less_asymm,
  less_irrefl, eq_sound, sort_by, sort_by-perm, IsSortedBy, sort_by-IsSortedBy, select,
  sort_by-select, ◌≡◌, refl, sym, inl, inr, Bool-cases, arith,
}
use jig_mcp.Prelude.Result.{Result, ok}
use jig_mcp.Dashboard.Logs.{
  AuditLine, LogFile, granted, newest_first, decode_lines, tail_lines, seek_pos, recent,
  get_audit_logs, tail_size,
}

abbrev pub at_time : Str → AuditLine → Bool
at_time time l = l.timestamp == time

-- `shown` and then `older` are the entries, the latest first, those of one time in the order of the log;
-- as many are shown as there are, up to `limit`.
pub record ShowsLatest (limit : ℕ) (entries shown older : List AuditLine) : Type 0 where
  pub same_entries : Perm (shown ++ older) entries
  pub sorted : IsSortedBy newest_first (shown ++ older)
  pub stable : (time : Str) → select (at_time time) (shown ++ older) ≡ select (at_time time) entries
  pub count : length shown ≡ min limit (length entries)
  pub complete : length entries ≤ limit → older ≡ []

same_time_level :
    (time : Str) (a b : AuditLine)
    → at_time time a ≡ true
    → at_time time b ≡ true
    → newest_first a b ≡ false
same_time_level time a b h k =
    rw (eq_sound a.timestamp time h) (rw (eq_sound b.timestamp time k) (less_irrefl time))

take_all {ℓ} :
    {A : Type ℓ} (n : ℕ) (xs : List A) → length xs ≤ n → (take n xs ≡ xs) × (drop n xs ≡ [])
take_all zero [] h = (refl, refl)
take_all zero (x ∷ xs) h = absurd (omega arith)
take_all (suc n) [] h = (refl, refl)
take_all (suc n) (x ∷ xs) h = let (t, d) = take_all n xs (omega arith) in ((λ i. x ∷ t i), d)

module _ (scan : Str → List Str) (decode : Str → Result AuditLine) (limit : ℕ) where
  -- The limit cuts the sorted entries, whichever way its test goes.
  recent-take :
      (ls : List AuditLine) → recent scan decode limit ls ≡ take limit (sort_by newest_first ls)
  recent-take ls = elim (Bool-cases (ltb limit (length (sort_by newest_first ls)))) [
    | inl over ↦ rw over refl
    | inr within ↦ rw within (sym (take_all limit (sort_by newest_first ls) (ground arith)).0)
  ]

  recent-ShowsLatest :
      (ls : List AuditLine)
      → ShowsLatest limit ls (recent scan decode limit ls) (drop limit (sort_by newest_first ls))
  recent-ShowsLatest ls = rw (recent-take ls) (record {
    same_entries = rw whole (sort_by-perm newest_first ls);
    sorted =
        rw whole (sort_by-IsSortedBy newest_first (λ a b. less_asymm b.timestamp a.timestamp) ls);
    stable =
        λ time. rw whole (sort_by-select newest_first (at_time time) (same_time_level time) ls);
    count =
        omega (arith, length-take limit (sort_by newest_first ls), length-sort_by newest_first ls);
    complete = λ few.
        (take_all limit (sort_by newest_first ls)
          (omega (arith, few, length-sort_by newest_first ls))).1;
  })
    where
      whole :
          take limit (sort_by newest_first ls) ++ drop limit (sort_by newest_first ls)
          ≡ sort_by newest_first ls
      whole = take-append-drop limit (sort_by newest_first ls)

  tail_lines-short :
      (content : Str) → length content ≤ tail_size → tail_lines scan decode content ≡ scan content
  unfolding tail_lines seek_pos
  tail_lines-short content h =
      let z : length content - tail_size ≡ 0 = omega (arith, h) in rw z refl

  -- The log directory has no "..", and the file can be opened and read: the dashboard shows the latest of
  -- the decodable entries among the lines that the scanner gives of the tail, as many as there are up to
  -- `limit`, the latest first and those of one time in the order of the log. If the file has at most 64 KB,
  -- these lines are those that the scanner gives of the whole file.
  pub get_audit_logs_lem :
      (log_dir : Str) (log : LogFile)
      → contains log_dir (lit "..") ≡ false
      → log.root ≡ granted
      → log.file ≡ granted
      → log.stat_error ≡ none
      → log.seek_error ≡ none
      → (shown : List AuditLine) × (older : List AuditLine) × (get_audit_logs scan decode limit
            log_dir log
          ≡ ok shown)
        × ShowsLatest limit
            (decode_lines scan decode (tail_lines scan decode log.content))
            shown
            older
        × (length log.content ≤ tail_size → tail_lines scan decode log.content ≡ scan log.content)
  unfolding get_audit_logs
  get_audit_logs_lem log_dir log plain r f st se = (
    recent scan decode limit (decode_lines scan decode (tail_lines scan decode log.content)),
    drop limit
        (sort_by newest_first (decode_lines scan decode (tail_lines scan decode log.content))),
    simp (plain, r, f, st, se),
    recent-ShowsLatest (decode_lines scan decode (tail_lines scan decode log.content)),
    tail_lines-short log.content,
  )
