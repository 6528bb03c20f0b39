-- ===== src/Platform/Errors.antt =====
-- backend/src/spidey/platform/errors.py: the error taxonomy. Only the interface layer reads the
-- codes and statuses of an error; the services below raise the errors.
use Prim.Native.String.{String}

-- The subclasses of `SpideyError`, each with its client-safe `detail`. `unhandled` is any
-- exception that is no `SpideyError`, such as a database constraint violation.
pub data Error : Type 0 where
  internal validation_failed not_found unauthorized forbidden conflict : String → Error
  rate_limited service_unavailable : String → Error
  unhandled : Error
