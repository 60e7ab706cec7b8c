-- ===== src/Log/Logger/Delivery.antt =====
-- What the sinks receive (DeepSeerLib/src/Log/Logger.cpp and Logger.hpp).
use deep_seer.Base.{
  ◌≡◌, refl, sym, ap, ◌∙◌, inl, inr, true, false, List, [], ◌∷◌, ◌++◌, map, leb, if◌then◌else◌,
  if_true, if_false, Bool-cases, append_assoc, append-nil,
}
use deep_seer.Core.Buffer.{Bytes}
use deep_seer.Log.Logger.{
  LogLevel, severity, Sink, Logger, set_level, should_log, log_line, receive, dispatch, log,
  shutdown,
}

-- Calls of `setLevel`, and of `log` with the printed time and the thread's tag.
pub data Call : Type 0 where
  sets : LogLevel → Call
  logs : Bytes → Bytes → LogLevel → Bytes → Call

unfoldable pub run : List Call → Logger → Logger
run [] g = g
run (sets l ∷ cs) g = run cs (set_level l g)
run (logs time tid l m ∷ cs) g = run cs (log time tid l m g)

-- The lines of the calls at or above the level that holds at the call.
unfoldable pub kept : LogLevel → List Call → List Bytes
kept low [] = []
kept low (sets l ∷ cs) = kept l cs
kept low (logs time tid l m ∷ cs) =
    let rest = kept low cs in
    if leb (severity low) (severity l) then log_line time tid l m ∷ rest else rest

-- The lines of each sink, and with more lines behind them.
abbrev pub lines_of : List Sink → List (List Bytes)
lines_of = map (λ s. s.lines)

unfoldable pub extended : List Bytes → List Sink → List (List Bytes)
extended ls [] = []
extended ls (s ∷ ss) = (s.lines ++ ls) ∷ extended ls ss

extended-nil : (ss : List Sink) → extended [] ss ≡ lines_of ss
unfolding extended
extended-nil [] = refl
extended-nil (s ∷ ss) = rw (append-nil s.lines, extended-nil ss)

extended-receive :
    (line : Bytes) (ls : List Bytes) (ss : List Sink)
    → extended ls (map (receive line) ss) ≡ extended (line ∷ ls) ss
unfolding extended
extended-receive line ls [] = refl
extended-receive line ls (s ∷ ss) =
    rw (append_assoc s.lines (line ∷ []) ls, extended-receive line ls ss)

log_kept :
    (time tid : Bytes) (l : LogLevel) (m : Bytes) (g : Logger)
    → leb (severity g.min_level) (severity l) ≡ true
    → log time tid l m g ≡ dispatch time tid l m g
unfolding log should_log
log_kept time tid l m g h =
    if_true (leb (severity g.min_level) (severity l)) (dispatch time tid l m g) g h

log_dropped :
    (time tid : Bytes) (l : LogLevel) (m : Bytes) (g : Logger)
    → leb (severity g.min_level) (severity l) ≡ false
    → log time tid l m g ≡ g
unfolding log should_log
log_dropped time tid l m g h =
    if_false (leb (severity g.min_level) (severity l)) (dispatch time tid l m g) g h

run_lem :
    (cs : List Call) (g : Logger)
    → lines_of (run cs g).sinks ≡ extended (kept g.min_level cs) g.sinks
unfolding run kept set_level dispatch
run_lem [] g = sym (extended-nil g.sinks)
run_lem (sets l ∷ cs) g = run_lem cs (set_level l g)
run_lem (logs time tid l m ∷ cs) g =
    let low = g.min_level in
    let line = log_line time tid l m in
    elim (Bool-cases (leb (severity low) (severity l))) [
      | inl h ↦
          ap (λ d. lines_of (run cs d).sinks) (log_kept time tid l m g h)
          ∙ run_lem cs (dispatch time tid l m g)
          ∙ extended-receive line (kept low cs) g.sinks
          ∙ sym (
              ap (λ ls. extended ls g.sinks)
                (if_true (leb (severity low) (severity l)) (line ∷ kept low cs) (kept low cs) h))
      | inr h ↦
          ap (λ d. lines_of (run cs d).sinks) (log_dropped time tid l m g h)
          ∙ run_lem cs g
          ∙ sym (
              ap (λ ls. extended ls g.sinks)
                (if_false (leb (severity low) (severity l)) (line ∷ kept low cs) (kept low cs) h))
    ]

flushed_lem :
    (ss : List Sink)
    → lines_of (map (λ s. record { lines = s.lines; flushed = true }) ss) ≡ lines_of ss
flushed_lem [] = refl
flushed_lem (s ∷ ss) = rw (flushed_lem ss)

-- After any calls of `setLevel` and `log` and then `shutdown`: each sink has received, behind what it
-- had, exactly the lines of the calls at or above the level that held at the call, in their order,
-- and the logger has no sinks.
pub delivery_lem :
    (cs : List Call) (g : Logger)
    → (lines_of (shutdown (run cs g)).1 ≡ extended (kept g.min_level cs) g.sinks)
      × ((shutdown (run cs g)).0.sinks ≡ [])
unfolding shutdown
delivery_lem cs g = (flushed_lem (run cs g).sinks ∙ run_lem cs g, refl)
