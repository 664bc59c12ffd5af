-- ===== src/Logging.antt =====
-- CEventLoop/Logging.h and Logging.cc: which statements log, and what one hands to the output.
mod Tests
pub mod Levels
pub mod Lines
use cevent_loop.Prelude.{ℕ, ◌≡◌, Bool, true, false, List, [], ◌∷◌, ◌++◌, leb, ◌==◌, if◌then◌else◌}
use cevent_loop.Prelude.Int.{ℤ}
use cevent_loop.Prelude.Text.{Text, print_int}

-- `enum class LogLevel`
pub data LogLevel : Type 0 where
  trace debug info warn error fatal num_log_levels : LogLevel

abbrev pub rank : LogLevel → ℕ
rank trace = 0
rank debug = 1
rank info = 2
rank warn = 3
rank error = 4
rank fatal = 5
rank num_log_levels = 6

-- `initLogLevel`, with whether each variable is in the environment.
unfoldable pub init_log_level : Bool → Bool → LogLevel
init_log_level has_trace has_debug = if has_trace then trace else if has_debug then debug else info

-- The level and the two functions that the globals hold, on the output `W` that they change.
pub record Settings (W : Type 0) : Type 0 where
  pub level : LogLevel
  pub output : Text → W → W
  pub flush : W → W

unfoldable pub set_log_level : {W : Type 0} → LogLevel → Settings W → Settings W
set_log_level level s = record s { level = level }

unfoldable pub set_output_func : {W : Type 0} → (Text → W → W) → Settings W → Settings W
set_output_func f s = record s { output = f }

unfoldable pub set_flush_func : {W : Type 0} → (W → W) → Settings W → Settings W
set_flush_func f s = record s { flush = f }

-- The macros that begin a statement.
pub data Macro : Type 0 where
  log_trace log_debug log_info log_warn log_syserr log_fatal : Macro

-- The `if` of each macro.
unfoldable pub enabled : Macro → LogLevel → Bool
enabled log_trace level = rank level == rank trace
enabled log_debug level = leb (rank level) (rank debug)
enabled log_info level = leb (rank level) (rank info)
enabled log_warn level = leb (rank level) (rank info)
enabled log_syserr level = leb (rank level) (rank error)
enabled log_fatal level = leb (rank level) (rank fatal)

-- `buffer_`, `sourceFile_` and `line_`
pub record Logger : Type 0 where
  pub buffer : Text
  pub source_file : Text
  pub line : ℕ

unfoldable pub new : Text → ℕ → Logger
new file line = record { buffer = []; source_file = file; line = line }

-- What a statement streams: a text, a C string, a number, a pointer or a thread, with the text that
-- `%p` and the stream make of the last two.
pub data Item : Type 0 where
  view c_string : Text → Item
  number : ℤ → Item
  pointer thread_id : Text → Item

abbrev pub item_text : Item → Text
item_text (view t) = t
item_text (c_string t) = t
item_text (number i) = print_int i
item_text (pointer t) = t
item_text (thread_id t) = t

-- `operator<<`
unfoldable pub stream : Item → Logger → Logger
stream i l = record l { buffer = l.buffer ++ item_text i }

unfoldable pub stream_all : List Item → Logger → Logger
unfolding stream
stream_all [] l = l
stream_all (i ∷ is) l = stream_all is (stream i l)

module _ {W : Type 0} where
  -- `~Logger`
  unfoldable pub destruct : Settings W → Logger → W → W
  destruct s l w =
      s.flush (
        s.output (b'\n' ∷ []) (s.output l.buffer (s.output (b':' ∷ []) (s.output l.source_file w))))

  -- A whole statement, `LOG_X << a << b;`, on a line of a file.
  unfoldable pub log : Settings W → Macro → Text → ℕ → List Item → W → W
  unfolding enabled new stream_all destruct
  log s m file line items w =
      if enabled m s.level then destruct s (stream_all items (new file line)) w else w
