-- ===== src/Validate/Entries.antt =====
-- The access list of a project that is accepted.
use mongodb_atlas_kubernetes.Base.{
  ◌≡◌, ◌↔◌, ◌⊎◌, inl, inr, refl, Bool, true, false, not, Option, none, List, [], ◌∷◌, All, arith,
  Bool-cases, ◌&&◌, ◌||◌, if◌then◌else◌, is_empty_text,
}
use mongodb_atlas_kubernetes.Base.Errors.{GoError, plain, Answer, ok, err}
use mongodb_atlas_kubernetes.Validate.Names.{join_none}
use mongodb_atlas_kubernetes.Validate.Project.{
  Parsing, Time, AccessEntry, join_if, parse_iso8601, matches_security_group, has_failed_answer,
  cidr_errors, ip_errors, group_errors, date_errors, entry_errors, access_list_errors,
  project_ip_access_list,
}

module _ (parsing : Parsing) where
  -- An entry that names one thing, a CIDR block, an IP address or an AWS security group, in its
  -- form, and a date in one of the ISO 8601 layouts if there is one.
  abbrev pub IsGood : AccessEntry → Type 0
  IsGood i =
      (((is_empty_text i.cidr_block ≡ false)
          × (parsing.is_cidr i.cidr_block ≡ true)
          × (is_empty_text i.ip_address ≡ true)
          × (is_empty_text i.aws_security_group ≡ true))
        ⊎ ((is_empty_text i.cidr_block ≡ true)
            × (is_empty_text i.ip_address ≡ false)
            × (parsing.is_ip i.ip_address ≡ true)
            × (is_empty_text i.aws_security_group ≡ true))
        ⊎ ((is_empty_text i.cidr_block ≡ true)
            × (is_empty_text i.ip_address ≡ true)
            × (is_empty_text i.aws_security_group ≡ false)
            × (matches_security_group i.aws_security_group ≡ true)))
      × ((is_empty_text i.delete_after_date ≡ true)
          ⊎ ((t : Time) × (parse_iso8601 parsing i.delete_after_date ≡ ok t)))

  guarded_none :
      (b c d : Bool) (e f : GoError) (old : Option GoError)
      → ((if b then join_if c e (join_if d f old) else old) ≡ none)
        ↔ ((old ≡ none) × ((b ≡ false) ⊎ ((c ≡ false) × (d ≡ false))))
  guarded_none true c d e f old = grind (arith, join_none c e (join_if d f old), join_none d f old)
  guarded_none false c d e f old = grind arith

  cidr_none :
      (i : AccessEntry) (old : Option GoError)
      → (cidr_errors parsing i old ≡ none) ↔ (
          (old ≡ none)
          × ((not (is_empty_text i.cidr_block) ≡ false)
              ⊎ ((not (parsing.is_cidr i.cidr_block) ≡ false)
                  × ((not (is_empty_text i.aws_security_group) || not (is_empty_text i.ip_address))
                      ≡ false))))
  cidr_none i old = guarded_none _ _ _ _ _ old

  ip_none :
      (i : AccessEntry) (old : Option GoError)
      → (ip_errors parsing i old ≡ none) ↔ (
          (old ≡ none)
          × ((not (is_empty_text i.ip_address) ≡ false)
              ⊎ ((not (parsing.is_ip i.ip_address) ≡ false)
                  × ((not (is_empty_text i.aws_security_group) || not (is_empty_text i.cidr_block))
                      ≡ false))))
  ip_none i old = guarded_none _ _ _ _ _ old

  group_none :
      (i : AccessEntry) (old : Option GoError)
      → (group_errors parsing i old ≡ none) ↔ (
          (old ≡ none)
          × ((not (is_empty_text i.aws_security_group) ≡ false)
              ⊎ ((not (matches_security_group i.aws_security_group) ≡ false)
                  × ((not (is_empty_text i.ip_address) || not (is_empty_text i.cidr_block))
                      ≡ false))))
  group_none i old = guarded_none _ _ _ _ _ old

  parsed : (a : Answer Time) → (has_failed_answer parsing a ≡ false) ↔ ((t : Time) × (a ≡ ok t))
  parsed (ok t) = ((λ h. (t, refl)), λ h. refl)
  parsed (err e) = ((λ h. cc), λ (t, h). cc)

  date_none :
      (i : AccessEntry) (old : Option GoError)
      → (date_errors parsing i old ≡ none) ↔ (
          (old ≡ none)
          × ((is_empty_text i.delete_after_date ≡ true)
              ⊎ ((t : Time) × (parse_iso8601 parsing i.delete_after_date ≡ ok t))))
  date_none i old = elim (Bool-cases (is_empty_text i.delete_after_date)) [
    | inl e ↦ rw e ((λ h. (h, inl refl)), λ h. h.0)
    | inr e ↦ rw e (dated _ (parsed (parse_iso8601 parsing i.delete_after_date)))
  ]
    where
      Dated : Type 0
      Dated = (t : Time) × (parse_iso8601 parsing i.delete_after_date ≡ ok t)

      dated :
          (e : GoError)
          → (has_failed_answer parsing (parse_iso8601 parsing i.delete_after_date) ≡ false) ↔ Dated
          → (join_if (has_failed_answer parsing (parse_iso8601 parsing i.delete_after_date)) e old
              ≡ none)
            ↔ ((old ≡ none) × ((false ≡ true) ⊎ Dated))
      dated e h = grind (
        arith,
        h,
        join_none (has_failed_answer parsing (parse_iso8601 parsing i.delete_after_date)) e old,
      )

  one_of :
      (c i g p q r : Bool)
      → ((((c && i && g) ≡ false))
          × ((not c ≡ false) ⊎ ((not p ≡ false) × ((not g || not i) ≡ false)))
          × ((not i ≡ false) ⊎ ((not q ≡ false) × ((not g || not c) ≡ false)))
          × ((not g ≡ false) ⊎ ((not r ≡ false) × ((not i || not c) ≡ false))))
        ↔ (((c ≡ false) × (p ≡ true) × (i ≡ true) × (g ≡ true))
            ⊎ ((c ≡ true) × (i ≡ false) × (q ≡ true) × (g ≡ true))
            ⊎ ((c ≡ true) × (i ≡ true) × (g ≡ false) × (r ≡ true)))
  one_of c i g p q r = ground arith

  entry_none :
      (i : AccessEntry) (old : Option GoError)
      → (entry_errors parsing i old ≡ none) ↔ ((old ≡ none) × IsGood i)
  unfolding entry_errors
  entry_none i old =
      let unset =
        is_empty_text i.ip_address
        && is_empty_text i.cidr_block
        && is_empty_text i.aws_security_group in
      let e = plain "invalid config! one of option must be configured" in
      let o1 = join_if unset e old in
      let o2 = cidr_errors parsing i o1 in
      let o3 = ip_errors parsing i o2 in
      let h1 = join_none unset e old in
      let h2 = cidr_none i o1 in
      let h3 = ip_none i o2 in
      let h4 = group_none i o3 in
      let h5 = date_none i (group_errors parsing i o3) in
      let h =
        one_of (is_empty_text i.cidr_block) (is_empty_text i.ip_address)
          (is_empty_text i.aws_security_group) (parsing.is_cidr i.cidr_block)
          (parsing.is_ip i.ip_address) (matches_security_group i.aws_security_group) in
      (
        (λ k.
            let (a5, d) = h5.0 k in
            let (a4, c4) = h4.0 a5 in
            let (a3, c3) = h3.0 a4 in
            let (a2, c2) = h2.0 a3 in
            let (b1, a1) = h1.0 a2 in (a1, (h.0 (ground (arith, b1), c2, c3, c4), d))),
        (λ (a1, (g, d)).
            let (b1, c2, c3, c4) = h.1 g in
            h5.1 (h4.1 (h3.1 (h2.1 (h1.1 (ground (arith, b1), a1), c2), c3), c4), d)),
      )

  entries_none :
      (old : Option GoError) (is : List AccessEntry)
      → (access_list_errors parsing old is ≡ none) ↔ ((old ≡ none) × All IsGood is)
  unfolding access_list_errors
  entries_none old [] = grind arith
  entries_none old (i ∷ is) =
      let h = entries_none (entry_errors parsing i old) is in
      let g = entry_none i old in
      (
        (λ k. let (a, rest) = h.0 k in let (b, good) = g.0 a in (b, (good, rest))),
        (λ (b, (good, rest)). h.1 (g.1 (b, good), rest)),
      )

  -- The access list of a project is accepted exactly when every entry names one thing alone, a CIDR
  -- block, an IP address or an AWS security group, in its form, with no date or one that parses.
  pub access_list_accepted_iff :
      (items : List AccessEntry) → (project_ip_access_list parsing items ≡ none) ↔ All IsGood items
  unfolding project_ip_access_list
  access_list_accepted_iff [] = ((λ k. tt), (λ k. refl))
  access_list_accepted_iff (i ∷ is) =
      let h = entries_none none (i ∷ is) in ((λ k. (h.0 k).1), (λ k. h.1 (refl, k)))
