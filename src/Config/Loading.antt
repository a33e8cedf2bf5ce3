-- ===== src/Config/Loading.antt =====
-- Which configurations `Load` lets through.
use Prim.Native.String.{◌++◌}
use ctse_mood_rule_service.Common.{
  String, Bool, true, false, not, ◌≡◌, refl, arith, ◌==◌, if◌then◌else◌, Bool-cases, inl, inr,
  Error, errorf, wrap, ok, err,
}
use ctse_mood_rule_service.Common.Int.{ℤ, pos, gtb_ℤ}
use ctse_mood_rule_service.Common.Decimal.{format_int}
use ctse_mood_rule_service.Config.{
  Environment, Config, get_env, get_env_as_int, read_database, read_server, read_config, validate,
  checked, load,
}

-- A port of the network.
abbrev pub is_port : ℤ → Bool
is_port p = if gtb_ℤ p (pos 0) then not (gtb_ℤ p (pos 65535)) else false

abbrev pub bad_port : ℤ → Error
bad_port p = wrap "invalid configuration" (errorf ("invalid GRPC port: " ++ format_int p))

checked-validate :
    {F : Type 0} (c : Config F)
    → (c.database.host == "") ≡ false
    → checked c (validate c)
      ≡ (if is_port c.server.grpc_port then ok c else err (bad_port c.server.grpc_port))
unfolding validate checked
checked-validate c h = elim (Bool-cases (gtb_ℤ c.server.grpc_port (pos 0))) [
  | inr low ↦ simp low refl
  | inl positive ↦ elim (Bool-cases (gtb_ℤ c.server.grpc_port (pos 65535))) [
    | inl high ↦ simp (positive, high) refl
    | inr fits ↦ simp (positive, fits, h) refl
  ]
]

module _ {F : Type 0} (env : Environment F) where
  -- A variable with a default that is not empty is never read as empty.
  get_env_nonempty :
      (key default_value : String)
      → (default_value == "") ≡ false
      → (get_env env key default_value == "") ≡ false
  unfolding get_env
  get_env_nonempty key default_value h = ground arith

  -- `Load` fails exactly if the gRPC port that it reads is not from 1 to 65535, with an error that
  -- names it, and otherwise answers what the variables and the defaults say: the check of the
  -- database's host never fails, since an empty variable is read as "localhost".
  pub load_lem :
      (ratio : F)
      → let port = get_env_as_int env "GRPC_PORT" (pos 50051) in
        load env ratio ≡ (if is_port port then ok (read_config env ratio) else err (bad_port port))
  unfolding load read_config read_server read_database
  load_lem ratio =
      checked-validate (read_config env ratio) (get_env_nonempty "DB_HOST" "localhost" refl)

  pub load-is_port :
      (ratio : F) (cfg : Config F) → load env ratio ≡ ok cfg → is_port cfg.server.grpc_port ≡ true
  unfolding read_config read_server
  load-is_port ratio cfg h =
      elim (Bool-cases (is_port (get_env_as_int env "GRPC_PORT" (pos 50051)))) [
        | inl fits ↦
            let read = rw fits at (load_lem ratio) in
            let same : read_config env ratio ≡ cfg = cc in rw (← same) fits
        | inr wild ↦ absurd (let failed = rw wild at (load_lem ratio) in cc)
      ]
