-- ===== src/Profile/Bounds.antt =====
-- The machine-width members of a profile that is read.
use oai_cn5g_sepp.Base.{ℕ, ◌≡◌, ◌<◌, ◌%◌, ◌^◌, arith, Option-cases, inl, inr, Bytes, codes}
use oai_cn5g_sepp.Json.{JsonLib}
use oai_cn5g_sepp.Json.Members.{IsJsonValue}
use oai_cn5g_sepp.Result.{
  ok, or_throw-eq-ok, Returns, Returns->>=, Returns->>=_any, Returns-ok, ok-inj,
}
use oai_cn5g_sepp.Profile.{Net, NfProfile, SeppProfile}
use oai_cn5g_sepp.Profile.Read.{
  read_string, read_int, read_array, read_prefix, nf_from_json, from_json,
}

module _ {J : JsonLib} {net : Net J} where
  -- The values that the members can have.
  pub record InRange (p : NfProfile net) : Type 0 where
    pub timer : p.heartbeat_timer < 2 ^ 32
    pub priority : p.priority < 2 ^ 16
    pub capacity : p.capacity < 2 ^ 16

module _ {J : JsonLib} (V : IsJsonValue J) (net : Net J) where
  read_int-bound :
      (j : J.Json) (k : Bytes) (before : ℕ)
      → before < 2 ^ 32
      → Returns (λ n. n < 2 ^ 32) (read_int net j k before)
  unfolding read_int
  read_int-bound j k before h n e = elim (Option-cases (J.find j k)) [
    | inl absent ↦ omega (arith, h, ok-inj (rw (read_int, absent) at e))
    | inr (v, present) ↦
        V.get_int-bound v n (or_throw-eq-ok (J.get_int v) (rw (read_int, present) at e))
  ]

  narrow : (n : ℕ) → n % 2 ^ 16 < 2 ^ 16
  narrow n = omega arith

  nf_from_json-InRange :
      (p : NfProfile net) (j : J.Json) → InRange p → Returns InRange (nf_from_json net p j)
  unfolding nf_from_json
  nf_from_json-InRange p j h = Returns->>=_any (read_string net j (codes "nfInstanceId") _) (λ _.
      Returns->>=_any (read_string net j (codes "nfInstanceName") _) (λ _.
        Returns->>=_any (read_string net j (codes "nfType") _) (λ _.
          Returns->>=_any (read_string net j (codes "nfStatus") _) (λ _.
            Returns->>= (read_int net j (codes "heartBeatTimer") _) (read_int-bound j _ _ h.timer)
              (λ _ timer. Returns->>=_any (read_array net _ j _ _) (λ _.
                Returns->>=_any (read_string net j (codes "fqdn") _) (λ _.
                  Returns->>=_any (read_array net _ j _ _) (λ _.
                    Returns->>=_any (read_int net j (codes "priority") _) (λ priority.
                      Returns->>=_any (read_int net j (codes "capacity") _) (λ capacity.
                        Returns-ok InRange _ (record {
                          timer = timer;
                          priority = narrow priority;
                          capacity = narrow capacity;
                        })))))))))))

  -- Timer, priority and capacity stay within their types, whatever JSON is read: a profile in range
  -- that `from_json` changes without an exception is in range.
  pub from_json-InRange :
      (s : SeppProfile net) (j : J.Json) (s' : SeppProfile net)
      → InRange s.nf
      → from_json net s j ≡ ok s'
      → InRange s'.nf
  unfolding from_json
  from_json-InRange s j s' h e =
      (Returns->>= (nf_from_json net s.nf j) (nf_from_json-InRange s.nf j h) (λ _ p.
          Returns->>=_any (read_string net j (codes "nfInstanceId") _) (λ _.
            Returns->>=_any (read_string net j (codes "nfInstanceName") _) (λ _.
              Returns->>=_any (read_string net j (codes "nfType") _) (λ _.
                Returns->>=_any (read_string net j (codes "nfStatus") _) (λ _.
                  Returns->>= (read_int net j (codes "heartBeatTimer") _)
                    (read_int-bound j _ _ p.timer)
                    (λ _ timer. Returns->>=_any (read_array net _ j _ _) (λ _.
                      Returns->>=_any (read_array net _ j _ _) (λ _.
                        Returns->>=_any (read_int net j (codes "priority") _) (λ priority.
                          Returns->>=_any (read_int net j (codes "capacity") _) (λ capacity.
                            Returns->>=_any (read_prefix net j _) (λ _.
                              Returns-ok (λ s. InRange s.nf) _
                                (record {
                                  timer = timer;
                                  priority = narrow priority;
                                  capacity = narrow capacity;
                                })))))))))))))
        s' e
