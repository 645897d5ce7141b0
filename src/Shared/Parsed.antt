-- ===== src/Shared/Parsed.antt =====
-- What comes of a command line: a configuration, an error, or the end of the process after the usage was printed.
use Prim.Native.String.{String}

pub data Parsed (A : Type 0) : Type 0 where
  parsed : A → Parsed A
  failed : String → Parsed A
  exited : Parsed A
