-- ===== src/Driver/Program/Refused.antt =====
-- `run` of src/main.cpp with more rounds than there is room for.
use babel_stream.Arith.{Arith}
use babel_stream.Options.{Options}
use babel_stream.Stream.{Stream}
