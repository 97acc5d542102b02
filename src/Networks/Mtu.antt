-- ===== src/Networks/Mtu.antt =====
-- What holds of a configuration that is accepted.
use apollo_controller.Prelude.{
  ℕ, ◌+◌, ◌≤◌, ◌≡◌, inl, inr, refl, sym, subst, ◌∙◌, Bool, true, false, not, ◌&&◌, ◌||◌, some, List,
  [], ◌∷◌, ◌++◌, arith, ltb, if◌then◌else◌, Bool-cases, length, length-append, ok, guard, >>=-eq-ok,
}
use apollo_controller.Prelude.Int.{ℤ, pos, ltb_ℤ}
use apollo_controller.Prelude.Text.{
  Bytes, codes, string_in_slice, bytes_eq, bytes_eq→eq, has_prefix, split,
}
use apollo_controller.Prelude.Number.{parse_int}
use apollo_controller.Container.{Map, get, has, get-missing}
use apollo_controller.Networks.Keys.{Net, long_name}
use apollo_controller.Networks.Validate.{
  real_key, mtu_range, mtu_checks, validate_entry, validate_loop, network_validate_config,
  network_get_tunnels, second_of, tunnels_loop, is_empty, is_fan,
}

module _ (net : Net) (name : Bytes) (config : Map) where
  validate_loop-get :
      (rest : Map) (k : Bytes)
      → validate_loop net name config rest ≡ ok tt
      → has rest k ≡ true
      → validate_entry net name config k (get rest k) ≡ ok tt
  unfolding validate_loop get has
  validate_loop-get [] k h g = cc
  validate_loop-get ((j, v) ∷ rest) k h g =
      let (done, first, others) =
        >>=-eq-ok (validate_entry net name config j v) (λ done. validate_loop net name config rest)
          h in
      elim (Bool-cases (bytes_eq j k)) [
        | inl e ↦
            rw e (subst (λ k. validate_entry net name config k v ≡ ok tt) (bytes_eq→eq j k e) first)
        | inr e ↦ rw e (validate_loop-get rest k others (rw e at g))
      ]

  -- Each entry of an accepted configuration is accepted.
  entry-accepted :
      (k : Bytes)
      → network_validate_config net name config ≡ ok tt
      → has config k ≡ true
      → validate_entry net name config k (get config k) ≡ ok tt
  unfolding network_validate_config
  entry-accepted k h g =
      validate_loop-get config k
        (>>=-eq-ok (guard (not (is_fan config && ltb 11 (length name))) long_name)
          (λ done. validate_loop net name config config) h).2
        g

  has-get : (k : Bytes) {c : ℕ} {s : Bytes} → get config k ≡ c ∷ s → has config k ≡ true
  has-get k g = elim (Bool-cases (has config k)) [
    | inl e ↦ e
    | inr e ↦ let q = sym g ∙ get-missing config k e in cc
  ]

  mtu-checked :
      (v : Bytes)
      → validate_entry net name config (codes "bridge.mtu") v ≡ ok tt
      → mtu_checks config (codes "bridge.mtu") v ≡ ok tt
  unfolding validate_entry real_key has_prefix bytes_eq
  mtu-checked v h = (>>=-eq-ok _ (λ done. mtu_checks config (codes "bridge.mtu") v) h).2

  range-checked :
      (c : ℕ) (s : Bytes) (m : ℤ)
      → mtu_checks config (codes "bridge.mtu") (c ∷ s) ≡ ok tt
      → parse_int (c ∷ s) ≡ some m
      → mtu_range config m ≡ ok tt
  unfolding mtu_checks bytes_eq
  range-checked c s m h p = rw p at h

-- Whether a configuration has a tunnel.
abbrev pub has_tunnel : Map → Bool
has_tunnel [] = false
has_tunnel ((k, v) ∷ config) = has_prefix k (codes "tunnel.") || has_tunnel config

-- Whether a value gives an address.
abbrev pub gives_address : Bytes → Bool
gives_address [] = false
gives_address (c ∷ s) = not (bytes_eq (c ∷ s) (codes "none"))

-- The bounds on the MTU of a bridge.
abbrev pub mtu_fits : Map → ℤ → Bool
mtu_fits config m =
    (not (gives_address (get config (codes "ipv6.address"))) || not (ltb_ℤ m (pos 1280)))
    && ((not (gives_address (get config (codes "ipv4.address"))) || not (ltb_ℤ m (pos 68)))
        && ((not (bytes_eq (get config (codes "bridge.mode")) (codes "fan"))
              || not (
                  ltb_ℤ
                    (if bytes_eq (get config (codes "fan.type")) (codes "ipip")
                      then pos 1480
                      else pos 1450)
                    m))
            && (not (has_tunnel config) || not (ltb_ℤ (pos 1400) m))))

is_empty-snoc : (xs : List Bytes) (x : Bytes) → is_empty (xs ++ (x ∷ [])) ≡ false
is_empty-snoc [] x = refl
is_empty-snoc (y ∷ xs) x = refl

listed-nonempty : (x : Bytes) (xs : List Bytes) → string_in_slice x xs ≡ true → is_empty xs ≡ false
unfolding string_in_slice
listed-nonempty x [] h = cc
listed-nonempty x (y ∷ xs) h = refl

tunnels_loop-has_tunnel :
    (config : Map) (tunnels : List Bytes)
    → is_empty (tunnels_loop config tunnels) ≡ is_empty tunnels && not (has_tunnel config)
unfolding tunnels_loop
tunnels_loop-has_tunnel [] tunnels = ground arith
tunnels_loop-has_tunnel ((k, v) ∷ config) tunnels =
    elim (Bool-cases (has_prefix k (codes "tunnel."))) [
      | inr p ↦ rw p (tunnels_loop-has_tunnel config tunnels)
      | inl p ↦ rw p (elim (Bool-cases (string_in_slice (second_of (split b'.' k)) tunnels)) [
        | inl q ↦ rw q (
            tunnels_loop-has_tunnel config tunnels
            ∙ rw (listed-nonempty (second_of (split b'.' k)) tunnels q) refl)
        | inr q ↦ rw q (
            tunnels_loop-has_tunnel config (tunnels ++ (second_of (split b'.' k) ∷ []))
            ∙ rw (is_empty-snoc tunnels (second_of (split b'.' k))) (ground arith))
      ])
    ]

gives_address_lem :
    (s : Bytes) → gives_address s ≡ not (is_empty s) && not (bytes_eq s (codes "none"))
gives_address_lem [] = refl
gives_address_lem (c ∷ s) = refl

mtu_range-fits : (config : Map) (m : ℤ) → mtu_range config m ≡ ok tt → mtu_fits config m ≡ true
unfolding mtu_range network_get_tunnels
mtu_range-fits config m h = ground (
  arith,
  h,
  gives_address_lem (get config (codes "ipv6.address")),
  gives_address_lem (get config (codes "ipv4.address")),
  tunnels_loop-has_tunnel config [],
)

-- In an accepted configuration with an MTU, a number of any sign, it is at least 1280 where there is
-- an IPv6 address and at least 68 where there is an IPv4 address, at most 1480 or 1450 in the two fan
-- modes, and at most 1400 where there are tunnels.
pub network_validate_config-mtu :
    (net : Net) (name : Bytes) (config : Map) (c : ℕ) (s : Bytes) (m : ℤ)
    → network_validate_config net name config ≡ ok tt
    → get config (codes "bridge.mtu") ≡ c ∷ s
    → parse_int (c ∷ s) ≡ some m
    → mtu_fits config m ≡ true
network_validate_config-mtu net name config c s m h g p =
    let e =
      entry-accepted net name config (codes "bridge.mtu") h
        (has-get net name config (codes "bridge.mtu") g) in
    mtu_range-fits config m
      (range-checked net name config c s m (mtu-checked net name config (c ∷ s) (rw g at e)) p)

tunnel-not_user :
    (k : Bytes) → has_prefix k (codes "tunnel.") ≡ true → has_prefix k (codes "user.") ≡ false
unfolding has_prefix bytes_eq
tunnel-not_user [] h = ground (arith, h)
tunnel-not_user (c ∷ s) h = ground (arith, h)

ltb-false : (a b : ℕ) → ltb a b ≡ false → b ≤ a
ltb-false a b h = ground (arith, h)

-- In an accepted configuration, the interface of each tunnel, which is called by the name of the
-- network, a dash and the name of the tunnel, has a name of at most 15 bytes.
pub network_validate_config-tunnel :
    (net : Net) (name : Bytes) (config : Map) (k first target field : Bytes)
    → network_validate_config net name config ≡ ok tt
    → has config k ≡ true
    → has_prefix k (codes "tunnel.") ≡ true
    → split b'.' k ≡ first ∷ target ∷ field ∷ []
    → length (name ++ b'-' ∷ target) ≤ 15
unfolding validate_entry real_key
network_validate_config-tunnel net name config k first target field h g t f =
    let e = entry-accepted net name config k h g in
    let e' = rw (tunnel-not_user k t, t, f) at e in
    elim (Bool-cases (ltb 14 (length name + length target))) [
      | inl l ↦ let q = rw l at e' in cc
      | inr l ↦ omega (arith, length-append name (b'-' ∷ target), ltb-false _ _ l)
    ]
