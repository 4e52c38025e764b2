-- ===== src/Logger.antt =====
-- logger/src/logger.ts and logger-console/src/logger.ts. The library `chalk` is the parameter
-- `paint`, and what the console and the output show is listed, the latest last.
use Prim.Native.String.{◌++◌ as ◌+++◌}
use lp_clients.Base.{◌≡◌, refl, ap, List, [], ◌∷◌, map, String}
use lp_clients.Platform.Values.{Value, undefined, null, bool, num, str, arr, obj}

-- The methods of `ILogger`.
pub data Level : Type 0 where
  error warn info verbose debug : Level

pub data ConsoleFn : Type 0 where
  console_log console_info console_warn console_error : ConsoleFn

pub data Color : Type 0 where
  grey white white_bright yellow red : Color

pub data Output : Type 0 where
  writes : String → Output
  prints : ConsoleFn → List Value → Output

-- `ILogger` and `ILoggerFactory`: a method lists what it puts out.
pub record Logger : Type 0 where
  pub log_at : Level → Value → List Value → List Output

pub record LoggerFactory : Type 0 where
  pub create : String → Logger

abbrev pub fn_of : Level → ConsoleFn
fn_of verbose = console_log
fn_of debug = console_log
fn_of info = console_info
fn_of warn = console_warn
fn_of error = console_error

abbrev pub color_of : Level → Color
color_of verbose = grey
color_of debug = white
color_of info = white_bright
color_of warn = yellow
color_of error = red

module _ (paint : Color → String → String) where
  -- `typeof arg === "string" ? color(arg) : arg`
  abbrev pub painted : Color → Value → Value
  painted c (str s) = str (paint c s)
  painted c v = v

  unfoldable pub log : String → ConsoleFn → Color → Value → List Value → List Output
  log name fn color message params =
      writes (paint color ("[" +++ (name +++ "] ")))
      ∷ prints fn (map (painted color) (message ∷ params))
      ∷ []

  unfoldable pub console_logger : String → Logger
  unfolding log
  console_logger name = record {
    log_at = λ level message params. log name (fn_of level) (color_of level) message params;
  }

  unfoldable pub console_logger_factory : LoggerFactory
  unfolding console_logger
  console_logger_factory = record { create = console_logger }

painted-plain :
    (paint : Color → String → String) (c : Color)
    → ((s : String) → paint c s ≡ s)
    → (v : Value) → painted paint c v ≡ v
painted-plain paint c plain undefined = refl
painted-plain paint c plain null = refl
painted-plain paint c plain (bool b) = refl
painted-plain paint c plain (num t) = refl
painted-plain paint c plain (str s) = ap str (plain s)
painted-plain paint c plain (arr xs) = refl
painted-plain paint c plain (obj fs) = refl

map-plain :
    (paint : Color → String → String) (c : Color)
    → ((s : String) → paint c s ≡ s)
    → (vs : List Value) → map (painted paint c) vs ≡ vs
map-plain paint c plain [] = refl
map-plain paint c plain (v ∷ vs) =
    rw (painted-plain paint c plain v, map-plain paint c plain vs) refl

-- Where the colours leave texts as they are, a logger of the factory prints at every level the
-- message and the parameters, all of them, in their order and unchanged, by one call of the
-- console, behind the name in brackets.
pub log_at_complete :
    (paint : Color → String → String) (name : String) (level : Level) (message : Value)
    (params : List Value)
    → ((c : Color) (s : String) → paint c s ≡ s)
    → ((console_logger_factory paint).create name).log_at level message params
      ≡ writes ("[" +++ (name +++ "] ")) ∷ prints (fn_of level) (message ∷ params) ∷ []
unfolding console_logger_factory
log_at_complete paint name level message params plain =
    let c : Color = color_of level in
    rw (plain c ("[" +++ (name +++ "] ")), map-plain paint c (plain c) (message ∷ params)) refl
