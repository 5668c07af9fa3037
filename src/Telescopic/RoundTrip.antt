-- ===== src/Telescopic/RoundTrip.antt =====
-- From the FQDN of a partner's network function to its label and back.
use mathlib.Core.Path.{subst}
use mathlib.Core.List.{append_assoc}
use oai_cn5g_sepp.Base.{
  ℕ, ◌+◌, ◌-◌, ◌%◌, ◌^◌, ◌<◌, ◌≡◌, refl, sym, ap, inl, inr, ◌≢◌, true, false, some, List, [], ◌∷◌,
  ◌++◌, arith, Bytes, codes, find, substr, substr_from, Bool-cases, take, drop, length, leb, ◌==◌,
  ==_iff, ==_refl, starts_with, drop-append, take-append, length-append, All, any,
}
use oai_cn5g_sepp.Search.{
  Lacks, find-append, substr-append, substr_from-append, substr_from_pattern,
}
use oai_cn5g_sepp.Result.{ok}
use oai_cn5g_sepp.Telescopic.{
  Plmn, TelescopicMapping, is_allowed, is_roaming_partner, parse_plmn, parse_fqdn, pad_mnc,
  resolved_fqdn, generate_telescopic_label, fqdn_to_mapping, mapping_to_fqdn, fqdn_suffix,
  sepp_domain, allowed_nfs,
}

mcc_start-IsLong : (mcc : Bytes) → mcc ≢ [] → leb (length (mcc ++ fqdn_suffix)) 16 ≡ false
mcc_start-IsLong [] ne = absurd (ne refl)
mcc_start-IsLong (c ∷ mcc) ne = ground (arith, length-append mcc fqdn_suffix)

mcc_start-length : (mcc : Bytes) → length (mcc ++ fqdn_suffix) - 16 ≡ length mcc
mcc_start-length mcc = omega (arith, length-append mcc fqdn_suffix)

substr_of_drop :
    (s t : Bytes) (n k : ℕ)
    → leb n (length s) ≡ true
    → take k (drop n s) ≡ t
    → substr s n k ≡ some t
substr_of_drop s t n k h e = ground arith

-- The count of the MNC does not wrap.
mnc_count :
    (mnc : Bytes)
    → length mnc < 2 ^ 64
    → (length (codes "mnc" ++ mnc) + 2 ^ 64 - 3) % 2 ^ 64 ≡ length mnc
mnc_count mnc short = omega arith

substr_mnc :
    (mnc tail : Bytes)
    → length mnc < 2 ^ 64
    → substr (codes "mnc" ++ (mnc ++ tail)) 3 ((length (codes "mnc" ++ mnc) + 2 ^ 64 - 3) % 2 ^ 64)
      ≡ some mnc
substr_mnc mnc tail short = rw (mnc_count mnc short) (
    substr_of_drop (codes "mnc" ++ (mnc ++ tail)) mnc 3 (length mnc) (ground arith)
      (take-append mnc tail))

substr_from_mcc :
    (mnc rest : Bytes)
    → substr_from (codes "mnc" ++ (mnc ++ (codes ".mcc" ++ rest))) (length (codes "mnc" ++ mnc) + 4)
      ≡ some rest
substr_from_mcc mnc rest =
    rw
      (
        sym (length-append (codes "mnc" ++ mnc) (codes ".mcc")),
        sym (append_assoc mnc (codes ".mcc") rest),
      )
      (substr_from-append ((codes "mnc" ++ mnc) ++ codes ".mcc") rest)

-- `mnc<mnc>.mcc<mcc>.3gppnetwork.org` gives the MCC followed by the MNC.
parse_plmn_lem :
    (mnc mcc : Bytes)
    → Lacks b'.' mnc
    → length mnc < 2 ^ 64
    → mcc ≢ []
    → parse_plmn (codes "mnc" ++ (mnc ++ (codes ".mcc" ++ (mcc ++ fqdn_suffix)))) ≡ ok (mcc ++ mnc)
unfolding parse_plmn
parse_plmn_lem mnc mcc h short ne =
    let rest = mcc ++ fqdn_suffix in
    let place : Lacks b'.' (codes "mnc" ++ mnc) = (omega arith, (omega arith, (omega arith, h))) in
    rw (
      find-append b'.' (codes "mcc") (codes "mnc" ++ mnc) rest place,
      substr_mnc mnc (codes ".mcc" ++ rest) short,
      substr_from_mcc mnc rest,
      mcc_start-IsLong mcc ne,
      mcc_start-length mcc,
      drop-append mcc fqdn_suffix,
      ==_refl fqdn_suffix,
      substr-append mcc fqdn_suffix,
    )

parse_fqdn-resolved :
    (nf_type mnc mcc : Bytes)
    → Lacks b'.' nf_type
    → Lacks b'.' mnc
    → length mnc < 2 ^ 64
    → mcc ≢ []
    → parse_fqdn (resolved_fqdn nf_type mnc mcc) ≡ ok (nf_type, mcc ++ mnc)
unfolding parse_fqdn
parse_fqdn-resolved nf_type mnc mcc hn h short ne =
    let remaining = codes "mnc" ++ (mnc ++ (codes ".mcc" ++ (mcc ++ fqdn_suffix))) in
    rw (
      find-append b'.' (codes "5gc.") nf_type remaining hn,
      substr-append nf_type (codes ".5gc." ++ remaining),
      substr_from_pattern nf_type (codes ".5gc.") remaining,
      parse_plmn_lem mnc mcc h short ne,
    )

any-elim :
    (P : Bytes → Type 0) (xs : List Bytes) (s : Bytes)
    → All P xs
    → any (λ x. x == s) xs ≡ true
    → P s
any-elim P [] s ps h = absurd (ground (arith, h))
any-elim P (x ∷ xs) s ps h = elim (Bool-cases (x == s)) [
  | inl e ↦ subst P ((==_iff x s).0 e) ps.0
  | inr e ↦ any-elim P xs s ps.1 (rw e at h)
]

-- In the label of an allowed NF type, "plmn" is first found behind the NF type, though "pcf"
-- shares its first letter.
abbrev FoundBehind : Bytes → Type 0
FoundBehind nf_type =
    Lacks b'.' nf_type
    × ((id : Bytes)
        → find (generate_telescopic_label nf_type id) (codes "plmn") ≡ some (length nf_type))

allowed-FoundBehind : (nf_type : Bytes) → is_allowed nf_type ≡ true → FoundBehind nf_type
unfolding is_allowed find starts_with
allowed-FoundBehind nf_type = any-elim FoundBehind allowed_nfs nf_type (
  (omega arith, λ id. refl),
  (
    (omega arith, λ id. refl),
    (
      (omega arith, λ id. refl),
      (
        (omega arith, λ id. refl),
        ((omega arith, λ id. refl), ((omega arith, λ id. refl), ((omega arith, λ id. refl), tt))),
      ),
    ),
  ),
)

-- For an allowed NF type in a partner's PLMN, with a three digit MCC and an MNC without a dot that
-- is shorter than 2 ^ 64: the FQDN maps to the label of its NF type and PLMN, and that label maps
-- back to the FQDN, in which an MNC of two digits is padded with a zero.
pub mapping_to_fqdn-fqdn_to_mapping :
    (partners : List Plmn) (nf_type mnc mcc : Bytes) (start start' : TelescopicMapping)
    → is_allowed nf_type ≡ true
    → Lacks b'.' mnc
    → length mnc < 2 ^ 64
    → length mcc ≡ 3
    → is_roaming_partner partners (mcc ++ mnc) ≡ true
    → let label = generate_telescopic_label nf_type (mcc ++ mnc) in
      (fqdn_to_mapping partners (resolved_fqdn nf_type mnc mcc) start
        ≡ ok (record start { telescopic_label = some label; sepp_domain = some sepp_domain }))
      × (mapping_to_fqdn partners label start'
          ≡ ok (record {
            telescopic_label = some label;
            sepp_domain = some sepp_domain;
            foreign_fqdn = some (resolved_fqdn nf_type (pad_mnc mnc) mcc);
          }))
unfolding fqdn_to_mapping mapping_to_fqdn
mapping_to_fqdn-fqdn_to_mapping partners nf_type mnc mcc start start' allowed h short three
      partner =
    let (dotless, found) = allowed-FoundBehind nf_type allowed in
    (
      rw (
        parse_fqdn-resolved nf_type mnc mcc dotless h short
            (λ e. absurd (omega (arith, ap length e))),
        allowed,
        partner,
      ),
      rw (
        found (mcc ++ mnc),
        substr-append nf_type (codes "plmn" ++ (mcc ++ mnc)),
        substr_from_pattern nf_type (codes "plmn") (mcc ++ mnc),
        allowed,
        partner,
        sym three,
        substr-append mcc mnc,
        substr_from-append mcc mnc,
      ),
    )
