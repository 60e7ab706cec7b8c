-- ===== src/Log/Logger.antt =====
-- DeepSeerLib/src/Log/Logger.cpp, DeepSeerLib/include/DeepSeer/Log/Logger.hpp and
-- DeepSeerLib/include/DeepSeer/Log/Sink.hpp. A sink is the list of the lines that it has received.
-- The time stamp and the thread's tag come from the system and are arguments.
pub mod Delivery
use deep_seer.Base.{ℕ, Bool, true, false, List, [], ◌∷◌, ◌++◌, map, if◌then◌else◌, leb, codes}
use deep_seer.Core.Buffer.{Bytes}

pub data LogLevel : Type 0 where
  trace debug info warn error : LogLevel

-- The values of the enumeration.
abbrev pub severity : LogLevel → ℕ
severity trace = 0
severity debug = 1
severity info = 2
severity warn = 3
severity error = 4

-- `logLevelTag`.
unfoldable pub log_level_tag : LogLevel → Bytes
log_level_tag trace = codes "TRC"
log_level_tag debug = codes "DBG"
log_level_tag info = codes "INF"
log_level_tag warn = codes "WRN"
log_level_tag error = codes "ERR"

pub record Sink : Type 0 where
  pub lines : List Bytes
  pub flushed : Bool

-- `gMinLevel` and `gSinks`.
pub record Logger : Type 0 where
  pub min_level : LogLevel
  pub sinks : List Sink

-- `Logger::init`, `Logger::setLevel`.
unfoldable pub init : LogLevel → List Sink → Logger → Logger
init l ss g = record { min_level = l; sinks = ss }

unfoldable pub set_level : LogLevel → Logger → Logger
set_level l g = record g { min_level = l }

-- `Logger::shouldLog`.
unfoldable pub should_log : LogLevel → Logger → Bool
should_log l g = leb (severity g.min_level) (severity l)

-- The line of `Logger::dispatch`, from the printed time and thread tag.
abbrev pub log_line : Bytes → Bytes → LogLevel → Bytes → Bytes
log_line time tid l message =
    time
    ++ codes " ["
    ++ log_level_tag l
    ++ codes "] [tid:"
    ++ tid
    ++ codes "] "
    ++ message
    ++ 10 ∷ []

abbrev pub receive : Bytes → Sink → Sink
receive line s = record { lines = s.lines ++ line ∷ []; flushed = false }

-- `Logger::dispatch`.
unfoldable pub dispatch : Bytes → Bytes → LogLevel → Bytes → Logger → Logger
dispatch time tid l message g = record g {
  sinks = map (receive (log_line time tid l message)) g.sinks;
}

-- `Logger::log`.
unfoldable pub log : Bytes → Bytes → LogLevel → Bytes → Logger → Logger
unfolding should_log dispatch
log time tid l message g = if should_log l g then dispatch time tid l message g else g

-- `Logger::shutdown`: the logger, and the sinks as they were flushed.
unfoldable pub shutdown : Logger → Logger × List Sink
shutdown g =
    (record g { sinks = [] }, map (λ s. record { lines = s.lines; flushed = true }) g.sinks)
