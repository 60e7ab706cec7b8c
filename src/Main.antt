-- ===== src/Main.antt =====
-- Source/main.cpp: the arguments of the program. none is a `std::stoi` that throws.
pub mod Arguments
use deep_seer.Base.{
  ℕ, Bool, true, false, List, [], ◌∷◌, Option, none, some, if◌then◌else◌, same, codes, stoi_u16,
  ◌>>=◌,
}
use deep_seer.Core.Buffer.{Bytes}

pub record Options : Type 0 where
  pub port : ℕ
  pub ca_cert : Bytes
  pub ca_key : Bytes
  pub model_path : Bytes

abbrev pub default_options : Options
default_options = record { port = 8080; ca_cert = []; ca_key = []; model_path = [] }

-- What the loop over the arguments comes to.
pub data Parsed : Type 0 where
  version_only : Parsed
  options : Options → Parsed

-- The loop over `argv`; the last argument has no value behind it.
unfoldable pub parse : List Bytes → Options → Option Parsed
parse [] o = some (options o)
parse (arg ∷ []) o = if same arg (codes "--version") then some version_only else some (options o)
parse (arg ∷ value ∷ rest) o =
    let skipped = parse (value ∷ rest) o in
    let with_port = stoi_u16 value >>= λ (p : ℕ). parse rest (record o { port = p }) in
    let with_cert = parse rest (record o { ca_cert = value }) in
    let with_key = parse rest (record o { ca_key = value }) in
    let with_model = parse rest (record o { model_path = value }) in
    if same arg (codes "--version")
    then some version_only
    else if same arg (codes "--port")
    then with_port
    else if same arg (codes "--ca-cert")
    then with_cert
    else if same arg (codes "--ca-key")
    then with_key
    else if same arg (codes "--model")
    then with_model
    else skipped
