-- ===== src/Runs/Programs.antt =====
-- The example programs and the round trips of the tests, with the parameters of verification/Toy.antt.
use verusid_cmm_encrypt.Common.{◌<◌, ◌+◌, ◌≡◌, refl, some, true, replicate, arith, [], ◌∷◌, length}
use verusid_cmm_encrypt.Common.Outcome.{ok}
use verusid_cmm_encrypt.Ephemeral.{derive_g_d}
use verusid_cmm_encrypt.Ephemeral.Trips.{dh_round_trip, full_round_trip}
use verusid_cmm_encrypt.Ephemeral.Trips.Agree.{dh_round_trip_passes, full_round_trip_recovers}
use verusid_cmm_encrypt.DataDescriptor.{
  DataDescriptor, default, calc_flags, flag_bits, write_data_descriptor,
}
use verusid_cmm_encrypt.DataDescriptor.Layout.{
  Fits, optional, descriptor_bytes, write_data_descriptor_lem,
}
use verusid_cmm_encrypt.DataDescriptor.Wrap.{WrappedEncrypted, wrap_encrypted_with_key}
use verusid_cmm_encrypt.Wire.Writer.{extend-fresh}
use verusid_cmm_encrypt.Wire.Strings.{var_bytes}
use verusid_cmm_encrypt.Wire.CompactSize.Encoding.{compact_size}
use verusid_cmm_encrypt.Wire.VarInt.Encoding.{varint, digits}
use verusid_cmm_encrypt.Api.Passes.{inner_bytes}
use verusid_cmm_encrypt.TwoStage.Wrapped.{decrypt_wrapped, decrypt_wrapped-wrap_encrypted_with_key}
use verusid_cmm_encrypt.Examples.{
  Printed, emit_datadescriptor_json, emit_signed_datadescriptors_json,
}
use verusid_cmm_encrypt.Examples.Emitted.{
  Opens, PrintsBoth, emit_datadescriptor_json-Opens, emit_signed_datadescriptors_json-PrintsBoth,
}
use verusid_cmm_encrypt.Toy.{toy, toy-Laws, generator}
use verusid_cmm_encrypt.Runs.{request, request-IsRequest}

valid_draw : derive_g_d toy (replicate 11 4) ≡ some generator
unfolding derive_g_d
valid_draw = refl

emit_datadescriptor_json-Opens_example :
    (printed : Printed) × (emit_datadescriptor_json toy request 1 ≡ some printed)
    × Opens toy printed (inner_bytes 2 0 (some (0x61 ∷ [])) (some (0x62 ∷ 0x63 ∷ [])))
emit_datadescriptor_json-Opens_example =
    emit_datadescriptor_json-Opens toy toy-Laws request 1 2 generator request-IsRequest
      (omega arith) valid_draw (omega arith)

emit_signed_datadescriptors_json-PrintsBoth_example :
    PrintsBoth toy request (emit_signed_datadescriptors_json toy request 1)
emit_signed_datadescriptors_json-PrintsBoth_example =
    emit_signed_datadescriptors_json-PrintsBoth toy toy-Laws request 1 2 generator request-IsRequest
      (omega arith) valid_draw (omega arith) (5 ∷ []) refl

dh_round_trip_passes_example : dh_round_trip toy 3 2 ≡ some true
dh_round_trip_passes_example =
    dh_round_trip_passes toy toy-Laws 3 2 2 generator (omega arith) valid_draw

full_round_trip_recovers_example : full_round_trip toy 3 2 (1 ∷ 2 ∷ []) ≡ some (1 ∷ 2 ∷ [])
full_round_trip_recovers_example =
    full_round_trip_recovers toy toy-Laws 3 2 2 generator (omega arith) valid_draw (1 ∷ 2 ∷ [])
      (omega arith)

abbrev inner : DataDescriptor
inner = record default { object_data = 1 ∷ 2 ∷ 3 ∷ 4 ∷ []; version = 1 }

inner-Fits : Fits inner
inner-Fits = record { label = omega arith; mime_type = omega arith; version = omega arith }

inner_short : length (write_data_descriptor inner []).1 < 253
unfolding descriptor_bytes calc_flags flag_bits optional var_bytes compact_size varint digits
inner_short = rw (write_data_descriptor_lem inner inner-Fits, extend-fresh) (omega arith)

decrypt_wrapped-wrap_encrypted_with_key_example :
    (wrapped : WrappedEncrypted) × (wrap_encrypted_with_key toy inner
        (replicate 32 1)
        (replicate 32 2)
      ≡ ok wrapped)
    × (wrapped.epk ≡ replicate 32 2)
    × (length wrapped.object_data ≡ length (write_data_descriptor inner []).1 + 22 + 16)
    × (decrypt_wrapped toy (replicate 32 1) wrapped ≡ some (write_data_descriptor inner []).1)
decrypt_wrapped-wrap_encrypted_with_key_example =
    decrypt_wrapped-wrap_encrypted_with_key toy toy-Laws inner (replicate 32 1) (replicate 32 2)
      inner-Fits inner_short
