-- ===== src/Api/Status.antt =====
-- The status of the public operations and the languages: include/morpheus/morpheus.h.

pub data Status : Type 0 where
  ok invalid_argument abi_mismatch no_memory input_too_long out_of_range internal_error
        buffer_too_small stemlib_error result_limit_exceeded :
      Status

-- The languages of the runtime.
pub data Language : Type 0 where
  greek latin italian : Language
