-- ===== src/Config/Loaded.antt =====
-- What LoadConfig accepts, and what it returns.
use bancod.Prelude.{
  ℕ, ◌≤◌, ◌≡◌, ◌≢◌, ◌⊎◌, ◌↔◌, inl, inr, refl, sym, ap, subst, Bool, true, false, not, Option, none,
  some, [], ◌∷◌, Bytes, text, ℤ, pos, negsuc, Result, ok, err, ◌>>=◌, guard, ◌>>◌, or_fail-eq-ok,
  arith,
}
use bancod.Prelude.Numerals.{atoi}
use bancod.Config.Path.{join}
use bancod.Config.{
  Config, ConfigError, ark_url_required, wallet_seed_required, introspector_url_required,
  invalid_grpc_port, invalid_http_port, invalid_log_level, grpc_port_range, http_port_range,
  same_ports, Env, required, datadir_of, number_or, is_port, same_number, load_config,
}

-- The number of a variable: the default where it is empty, or else what it spells.
abbrev pub Reads : Bytes → ℤ → ℤ → Type 0
Reads value default z = ((value ≡ []) × (z ≡ default)) ⊎ ((value ≢ []) × (atoi value ≡ some z))

abbrev pub IsPort : ℤ → Type 0
IsPort z = (n : ℕ) × (z ≡ pos n) × (1 ≤ n) × (n ≤ 65535)

abbrev pub IsDatadir : Bytes → Option Bytes → Bytes → Type 0
IsDatadir value home d =
    ((value ≢ []) × (d ≡ value))
    ⊎ ((value ≡ []) × (h : Bytes) × (home ≡ some h) × (d ≡ join h (text ".bancod")))

-- The configuration that an environment describes.
pub record Describes (env : Env) (home : Option Bytes) (c : Config) : Type 0 where
  pub url : (c.ark_url ≡ env (text "BANCOD_ARK_URL")) × (c.ark_url ≢ [])
  pub seed : (c.wallet_seed ≡ env (text "BANCOD_WALLET_SEED")) × (c.wallet_seed ≢ [])
  pub introspector :
      (c.introspector_url ≡ env (text "BANCOD_INTROSPECTOR_URL")) × (c.introspector_url ≢ [])
  pub password : c.wallet_password ≡ env (text "BANCOD_WALLET_PASSWORD")
  pub directory : IsDatadir (env (text "BANCOD_DATADIR")) home c.datadir
  pub grpc : Reads (env (text "BANCOD_GRPC_PORT")) (pos 7070) c.grpc_port × IsPort c.grpc_port
  pub http : Reads (env (text "BANCOD_HTTP_PORT")) (pos 7071) c.http_port × IsPort c.http_port
  pub level : Reads (env (text "BANCOD_LOG_LEVEL")) (pos 4) c.log_level
  pub distinct : c.grpc_port ≢ c.http_port

required_iff :
    (value : Bytes) (e : ConfigError) (s : Bytes)
    → (required value e ≡ ok s) ↔ ((s ≡ value) × (s ≢ []))
unfolding required
required_iff [] e s = (λ h. absurd cc, λ h. absurd (h.1 h.0))
required_iff (c ∷ v) e s = (λ h. (cc, λ n. cc), λ h. rw h.0)

number_or_iff :
    (value : Bytes) (default : ℤ) (e : ConfigError) (z : ℤ)
    → (number_or value default e ≡ ok z) ↔ Reads value default z
unfolding number_or
number_or_iff [] default e z =
    (λ h. inl (refl, cc), λ h. elim h [ inl r ↦ rw r.1 | inr r ↦ absurd (r.0 refl) ])
number_or_iff (c ∷ v) default e z = (
  λ h. inr ((λ n. cc), or_fail-eq-ok (atoi (c ∷ v)) e z h),
  λ h. elim h [ inl r ↦ absurd cc | inr r ↦ rw r.1 ],
)

datadir_of_iff :
    (value : Bytes) (home : Option Bytes) (d : Bytes)
    → (datadir_of value home ≡ ok d) ↔ IsDatadir value home d
unfolding datadir_of
datadir_of_iff [] none d =
    (λ h. absurd cc, λ h. elim h [ inl r ↦ absurd (r.0 refl) | inr r ↦ absurd cc ])
datadir_of_iff [] (some h) d = (
  λ e. inr (refl, h, refl, cc),
  λ k. elim k [ inl r ↦ absurd (r.0 refl) | inr (n, h', e, e') ↦ cc ],
)
datadir_of_iff (c ∷ v) home d =
    ((λ e. inl ((λ n. cc), cc)), λ h. elim h [ inl r ↦ rw r.1 | inr r ↦ absurd cc ])

is_port_iff : (z : ℤ) → (is_port z ≡ true) ↔ IsPort z
unfolding is_port
is_port_iff (negsuc n) = (λ h. absurd cc, λ h. absurd cc)
is_port_iff (pos n) = (λ h. (n, refl, ground arith, ground arith), λ h. ground arith)

same_number_iff : (a b : ℤ) → (not (same_number a b) ≡ true) ↔ (a ≢ b)
unfolding same_number
same_number_iff (pos m) (pos n) = (λ h e. ground arith, λ h. ground arith)
same_number_iff (negsuc m) (negsuc n) = (λ h e. ground arith, λ h. ground arith)
same_number_iff (pos m) (negsuc n) = (λ h e. absurd cc, λ h. refl)
same_number_iff (negsuc m) (pos n) = (λ h e. absurd cc, λ h. refl)

guards-ok :
    (b₁ b₂ b₃ : Bool) (e₁ e₂ e₃ : ConfigError) (k c : Config)
    → (guard b₁ e₁ >> (guard b₂ e₂ >> (guard b₃ e₃ >> ok k))) ≡ ok c
    → (b₁ ≡ true) × (b₂ ≡ true) × (b₃ ≡ true) × (k ≡ c)
guards-ok true true true e₁ e₂ e₃ k c h = (refl, refl, refl, cc)
guards-ok false b₂ b₃ e₁ e₂ e₃ k c h = absurd cc
guards-ok true false b₃ e₁ e₂ e₃ k c h = absurd cc
guards-ok true true false e₁ e₂ e₃ k c h = absurd cc

abbrev made : Bytes → Bytes → Bytes → Bytes → ℤ → ℤ → ℤ → Bytes → Config
made url seed intro dir grpc http level pw = record {
  datadir = dir;
  ark_url = url;
  wallet_seed = seed;
  wallet_password = pw;
  introspector_url = intro;
  grpc_port = grpc;
  http_port = http;
  log_level = level;
}

steps-ok :
    (r₁ r₂ r₃ r₄ : Result ConfigError Bytes) (r₅ r₆ r₇ : Result ConfigError ℤ) (pw : Bytes)
    (e₁ e₂ e₃ : ConfigError) (c : Config)
    → (do
      url ← r₁
      seed ← r₂
      intro ← r₃
      dir ← r₄
      grpc ← r₅
      http ← r₆
      level ← r₇
      guard (is_port grpc) e₁
      guard (is_port http) e₂
      guard (not (same_number grpc http)) e₃
      ok (made url seed intro dir grpc http level pw))
      ≡ ok c
    → (c.wallet_password ≡ pw)
      × (r₁ ≡ ok c.ark_url)
      × (r₂ ≡ ok c.wallet_seed)
      × (r₃ ≡ ok c.introspector_url)
      × (r₄ ≡ ok c.datadir)
      × (r₅ ≡ ok c.grpc_port)
      × (r₆ ≡ ok c.http_port)
      × (r₇ ≡ ok c.log_level)
      × (is_port c.grpc_port ≡ true)
      × (is_port c.http_port ≡ true)
      × (not (same_number c.grpc_port c.http_port) ≡ true)
steps-ok (ok url) (ok seed) (ok intro) (ok dir) (ok grpc) (ok http) (ok level) pw e₁ e₂ e₃ c h =
    let (g₁, g₂, g₃, k) =
      guards-ok (is_port grpc) (is_port http) (not (same_number grpc http)) e₁ e₂ e₃
        (made url seed intro dir grpc http level pw) c h in
    (
      sym (ap (λ (r : Config). r.wallet_password) k),
      ap (λ (r : Config). ok r.ark_url) k,
      ap (λ (r : Config). ok r.wallet_seed) k,
      ap (λ (r : Config). ok r.introspector_url) k,
      ap (λ (r : Config). ok r.datadir) k,
      ap (λ (r : Config). ok r.grpc_port) k,
      ap (λ (r : Config). ok r.http_port) k,
      ap (λ (r : Config). ok r.log_level) k,
      subst (λ (r : Config). is_port r.grpc_port ≡ true) k g₁,
      subst (λ (r : Config). is_port r.http_port ≡ true) k g₂,
      subst (λ (r : Config). not (same_number r.grpc_port r.http_port) ≡ true) k g₃,
    )
steps-ok (err e) r₂ r₃ r₄ r₅ r₆ r₇ pw e₁ e₂ e₃ c h = absurd cc
steps-ok (ok url) (err e) r₃ r₄ r₅ r₆ r₇ pw e₁ e₂ e₃ c h = absurd cc
steps-ok (ok url) (ok seed) (err e) r₄ r₅ r₆ r₇ pw e₁ e₂ e₃ c h = absurd cc
steps-ok (ok url) (ok seed) (ok intro) (err e) r₅ r₆ r₇ pw e₁ e₂ e₃ c h = absurd cc
steps-ok (ok url) (ok seed) (ok intro) (ok dir) (err e) r₆ r₇ pw e₁ e₂ e₃ c h = absurd cc
steps-ok (ok url) (ok seed) (ok intro) (ok dir) (ok grpc) (err e) r₇ pw e₁ e₂ e₃ c h = absurd cc
steps-ok (ok url) (ok seed) (ok intro) (ok dir) (ok grpc) (ok http) (err e) pw e₁ e₂ e₃ c h =
    absurd cc

-- LoadConfig succeeds exactly where the three required variables are set, the home directory is
-- known or not needed, the numbers that are given are numbers, and the two ports are different
-- and from 1 to 65535; and what it returns is what the variables give, with the defaults.
pub load_config_iff :
    (env : Env) (home : Option Bytes) (c : Config)
    → (load_config env home ≡ ok c) ↔ Describes env home c
unfolding load_config
load_config_iff env home c = (
  λ h.
      let (pw, r₁, r₂, r₃, r₄, r₅, r₆, r₇, p₁, p₂, p₃) =
        steps-ok (required (env (text "BANCOD_ARK_URL")) ark_url_required)
          (required (env (text "BANCOD_WALLET_SEED")) wallet_seed_required)
          (required (env (text "BANCOD_INTROSPECTOR_URL")) introspector_url_required)
          (datadir_of (env (text "BANCOD_DATADIR")) home)
          (number_or (env (text "BANCOD_GRPC_PORT")) (pos 7070) invalid_grpc_port)
          (number_or (env (text "BANCOD_HTTP_PORT")) (pos 7071) invalid_http_port)
          (number_or (env (text "BANCOD_LOG_LEVEL")) (pos 4) invalid_log_level)
          (env (text "BANCOD_WALLET_PASSWORD")) grpc_port_range http_port_range same_ports c h in
      record {
        url = (required_iff _ _ _).0 r₁;
        seed = (required_iff _ _ _).0 r₂;
        introspector = (required_iff _ _ _).0 r₃;
        password = pw;
        directory = (datadir_of_iff _ _ _).0 r₄;
        grpc = ((number_or_iff _ _ _ _).0 r₅, (is_port_iff _).0 p₁);
        http = ((number_or_iff _ _ _ _).0 r₆, (is_port_iff _).0 p₂);
        level = (number_or_iff _ _ _ _).0 r₇;
        distinct = (same_number_iff _ _).0 p₃;
      },
  λ d.
      rw
        (
          (required_iff (env (text "BANCOD_ARK_URL")) ark_url_required c.ark_url).1 d.url,
          (required_iff (env (text "BANCOD_WALLET_SEED")) wallet_seed_required c.wallet_seed).1
              d.seed,
          (required_iff (env (text "BANCOD_INTROSPECTOR_URL")) introspector_url_required
                c.introspector_url).1
              d.introspector,
          (datadir_of_iff (env (text "BANCOD_DATADIR")) home c.datadir).1 d.directory,
          (number_or_iff (env (text "BANCOD_GRPC_PORT")) (pos 7070) invalid_grpc_port c.grpc_port).1
              d.grpc.0,
          (number_or_iff (env (text "BANCOD_HTTP_PORT")) (pos 7071) invalid_http_port c.http_port).1
              d.http.0,
          (number_or_iff (env (text "BANCOD_LOG_LEVEL")) (pos 4) invalid_log_level c.log_level).1
              d.level,
          (is_port_iff c.grpc_port).1 d.grpc.1,
          (is_port_iff c.http_port).1 d.http.1,
          (same_number_iff c.grpc_port c.http_port).1 d.distinct,
        )
        (ap (λ pw. ok (record c { wallet_password = pw })) (sym d.password)),
)
