-- ===== src/SeppConfig/Checks.antt =====
-- What holds of a configuration that was read.
use oai_cn5g_sepp.Base.{
  ◌≡◌, ◌⊎◌, ==_iff, refl, true, false, none, some, [], Bool-cases, clash, inl, inr, Bytes, codes,
  ◌==◌,
}
use oai_cn5g_sepp.Result.{Result, ok, Returns, Returns->>=, Returns->>=_any, Returns-ok}
use oai_cn5g_sepp.SeppConfig.{
  Yaml, SeppRole, c_sepp, p_sepp, SeppConfig, initial, is_tls_enabled, role_of, read_value,
  read_role, read_server, read_client, read_block, read_tls, read_sepp, read_from_file,
}

-- The role is one of the two, as a text and as a value of the enumeration.
abbrev IsRole : Bytes → SeppRole → Type 0
IsRole role e = ((role ≡ codes "c-sepp") × (e ≡ c_sepp)) ⊎ ((role ≡ codes "p-sepp") × (e ≡ p_sepp))

abbrev RoleAgrees : SeppConfig → Type 0
RoleAgrees s = IsRole s.role s.sepp_role_enum

role_of-IsRole : (role : Bytes) → Returns (IsRole role) (role_of role)
unfolding role_of
role_of-IsRole role = elim (Bool-cases (role == codes "c-sepp")) [
  | inl e ↦ rw e (Returns-ok (IsRole role) c_sepp (inl ((==_iff role _).0 e, refl)))
  | inr e ↦ elim (Bool-cases (role == codes "p-sepp")) [
    | inl e' ↦ rw (e, e') (Returns-ok (IsRole role) p_sepp (inr ((==_iff role _).0 e', refl)))
    | inr e' ↦ rw (e, e') (λ a h. cc)
  ]
]

-- No certificate and no key was read.
abbrev NoPaths : SeppConfig → Type 0
NoPaths s = (s.server_private_key ≡ []) × (s.server_cert ≡ []) × (s.client_cacert ≡ [])

abbrev Untouched : SeppConfig → Type 0
Untouched s = RoleAgrees s × NoPaths s

abbrev WithTls : SeppConfig → Type 0
WithTls s = RoleAgrees s × (is_tls_enabled s ≡ true)

abbrev pub Checked : SeppConfig → Type 0
Checked s = RoleAgrees s × (is_tls_enabled s ≡ false → NoPaths s)

module _ (Y : Yaml) where
  read_block-Returns :
      (Q : SeppConfig → Type 0) (read : Y.Node → SeppConfig → Result SeppConfig) (node : Y.Node)
      (key : Bytes) (s : SeppConfig)
      → Q s
      → ((n : Y.Node) → Returns Q (read n s))
      → Returns Q (read_block Y read node key s)
  unfolding read_block
  read_block-Returns Q read node key s q h = Returns->>=_any (Y.member node key) (λ child.
      elim child as (λ c. Returns Q (elim c [ none ↦ ok s | some n ↦ read n s ])) [
        | none ↦ Returns-ok Q s q
        | some n ↦ h n
      ])

  read_role-Untouched :
      (node : Y.Node) (s : SeppConfig) → Untouched s → Returns Untouched (read_role Y node s)
  unfolding read_role
  read_role-Untouched node s u = Returns->>=_any (Y.as_string node) (λ role.
      Returns->>= (role_of role) (role_of-IsRole role) (λ e h. Returns-ok Untouched _ (h, u.1)))

  read_tls-WithTls :
      (node : Y.Node) (s : SeppConfig) → WithTls s → Returns WithTls (read_tls Y node s)
  unfolding read_tls read_server read_client is_tls_enabled
  read_tls-WithTls node s w =
      Returns->>= (read_block Y (read_server Y) node (codes "server") s)
        (read_block-Returns WithTls _ node (codes "server") s w (λ n.
          Returns->>=_any (read_value Y Y.as_string n (codes "private_key") _) (λ key.
            Returns->>=_any (read_value Y Y.as_string n (codes "cert") _)
              (λ cert. Returns-ok WithTls _ w))))
        (λ served v. read_block-Returns WithTls _ node (codes "client") served v (λ n.
          Returns->>=_any (read_value Y Y.as_string n (codes "cacert") _)
            (λ cacert. Returns-ok WithTls _ v)))

  read_sepp-Checked :
      (node : Y.Node) (s : SeppConfig) → Untouched s → Returns Checked (read_sepp Y node s)
  unfolding read_sepp
  read_sepp-Checked node s u =
      Returns->>= (read_block Y (read_role Y) node (codes "role") s)
        (read_block-Returns Untouched (read_role Y) node (codes "role") s u
          (λ n. read_role-Untouched n s u))
        (λ with_role v.
          Returns->>=_any (read_value Y Y.as_string node (codes "security") _) (λ security.
            Returns->>=_any (read_value Y Y.as_bool node (codes "disable_tls") _) (λ disabled.
              let read : SeppConfig = record with_role {
                security = security;
                disable_tls = disabled;
              } in
              elim (Bool-cases (is_tls_enabled read)) [
                | inl on ↦ rw (on) (λ t e.
                    let (agrees, on') =
                      read_block-Returns WithTls (read_tls Y) node (codes "tls") read (v.0, on)
                        (λ n. read_tls-WithTls n read (v.0, on)) t e in
                    (agrees, λ off. absurd (clash on' off)))
                | inr off ↦ rw (off) (Returns-ok Checked read (v.0, λ _. v.1))
              ])))

  -- A configuration that the file yields from the defaults, without an exception, has the role
  -- `c-sepp` or `p-sepp` with the value of the enumeration that belongs to it, and has read neither
  -- key nor certificate where TLS is disabled.
  pub read_from_file-Checked :
      (section : Bytes) (file : Result Y.Node) (s : SeppConfig)
      → read_from_file Y section file initial ≡ ok s
      → Checked s
  unfolding read_from_file
  read_from_file-Checked section file s e =
      let untouched : Untouched initial = (inl (refl, refl), (refl, refl, refl)) in
      Returns->>=_any {Q = Checked} file
        (λ root_node.
          read_block-Returns Checked (read_sepp Y) root_node section initial
            (inl (refl, refl), λ _. untouched.1) (λ n. read_sepp-Checked n initial untouched))
        s e
