-- ===== src/RunStore/Again.antt =====
-- ui/src/runStore.ts: items that were read back and are stored again.
use kaja.Prelude.{
  ◌≡◌, refl, ap, String, Option, none, some, List, [], ◌∷◌, arith, map, Option-cases, inl, inr,
}
use kaja.Value.{Value}
use kaja.Call.{MethodCall, ErrorValue, MessageType}
use kaja.Block.{Block}
use kaja.Run.{ConsoleItem}
use kaja.RunStore.{
  unwrap_envelope, envelope_field, serializable_error, to_stored_call, from_stored_call,
  stored_block, stored_blocks, stored_calls, to_stored_item, defined, map_option, map_options,
  stored_error,
}
use kaja.RunStore.Files.{read_calls, from_stored_item}

output_again : (value : Value) → map_option (unwrap_envelope none) (defined value) ≡ defined value
unfolding unwrap_envelope envelope_field
output_again Value.undefined = refl
output_again Value.null = refl
output_again (Value.bool b) = refl
output_again (Value.num n) = refl
output_again (Value.bigint n) = refl
output_again (Value.str s) = refl
output_again (Value.arr xs) = refl
output_again (Value.obj xs) = refl

outputs_again :
    (message_type : Option MessageType) (output : Option Value)
    → map_option (unwrap_envelope none) (map_option (unwrap_envelope message_type) output)
      ≡ map_option (unwrap_envelope message_type) output
outputs_again message_type none = refl
outputs_again message_type (some value) = output_again (unwrap_envelope message_type value)

map_again : (values : List Value) → map (unwrap_envelope none) values ≡ values
unfolding unwrap_envelope envelope_field
map_again [] = refl
map_again (value ∷ values) = ap (◌∷◌ value) (map_again values)

streams_again : (values : Option (List Value)) → map_options (unwrap_envelope none) values ≡ values
streams_again none = refl
streams_again (some values) = ap some (map_again values)

error_again : (error : Option ErrorValue) → stored_error (stored_error error) ≡ stored_error error
unfolding serializable_error
error_again none = refl
error_again (some error) = elim (Option-cases error.thrown) [
  | inl plain ↦ ground (arith, plain)
  | inr (name, thrown) ↦ ground (arith, thrown)
]

call_again :
    (call : MethodCall)
    → to_stored_call (from_stored_call (to_stored_call call)) ≡ to_stored_call call
unfolding to_stored_call from_stored_call
call_again call = ground (
  arith,
  outputs_again call.output_type call.output,
  streams_again (map_options (unwrap_envelope call.output_type) call.stream_outputs),
  error_again call.error,
)

calls_again :
    (call : Option MethodCall) → stored_calls (read_calls (stored_calls call)) ≡ stored_calls call
calls_again none = refl
calls_again (some call) = ap some (call_again call)

blocks_again : (block : Option Block) → stored_blocks (stored_blocks block) ≡ stored_blocks block
unfolding stored_block
blocks_again none = refl
blocks_again (some (Block.text text)) = refl
blocks_again (some (Block.code code language)) = refl
blocks_again (some (Block.table block)) = ground arith
blocks_again (some (Block.ask block)) = ground arith
blocks_again (some (Block.approve block)) = ground arith

-- An item that was stored and read back, into whichever run, is stored again as it was stored.
pub to_stored_item-from_stored_item :
    (run_id : String) (item : ConsoleItem)
    → to_stored_item (from_stored_item run_id (to_stored_item item)) ≡ to_stored_item item
unfolding to_stored_item from_stored_item
to_stored_item-from_stored_item run_id item =
    ground (arith, calls_again item.call, blocks_again item.block)
