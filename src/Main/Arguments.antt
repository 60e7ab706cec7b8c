-- ===== src/Main/Arguments.antt =====
-- The arguments of Source/main.cpp, written and read.
use deep_seer.Base.{
  ℕ, ◌<◌, ◌≡◌, ap, List, [], ◌∷◌, ◌++◌, Option, codes, same, to_decimal, stoi_u16-to_decimal, ◌>>=◌,
}
use deep_seer.Core.Buffer.{Bytes}
use deep_seer.Main.{Options, parse}

-- The arguments that set every option.
abbrev pub arguments : Options → List Bytes
arguments o =
    codes "--port"
    ∷ to_decimal o.port
    ∷ codes "--ca-cert"
    ∷ o.ca_cert
    ∷ codes "--ca-key"
    ∷ o.ca_key
    ∷ codes "--model"
    ∷ o.model_path
    ∷ []

-- The arguments of options with a port below 65536 are read back as these options, whatever the texts
-- of the values are, also those of an option's name; what was set before them is overwritten, and
-- further arguments are read on top of them.
pub parse-arguments :
    (o before : Options) (rest : List Bytes)
    → o.port < 65536
    → parse (arguments o ++ rest) before ≡ parse rest o
unfolding parse same
parse-arguments o before rest h =
    ap (λ (p : Option ℕ). p >>= λ (n : ℕ). parse rest (record o { port = n }))
      (stoi_u16-to_decimal o.port h)
