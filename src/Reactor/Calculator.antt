-- ===== src/Reactor/Calculator.antt =====
-- `calculator` of Reactor/reactor/main.cc. The same function, over a response with the operands
-- besides, stands in 10-23/NetCal/CalServer.cc as `calculatorHelper`.
pub mod Laws
use learn_in_linux.Common.{ℕ, ◌≡◌, refl, Result, ok, fault, Fault, ◌>>=◌, ◌==◌, if◌then◌else◌}
use learn_in_linux.Common.Int.{ℤ, pos, negsuc, is_zero, add_int, sub_int, mul_int, div_int, mod_int}
use learn_in_linux.Reactor.Protocol.Request.{Request}
use learn_in_linux.Reactor.Protocol.Response.{Response}

-- `resp(0, 0)` with `result_` set.
abbrev answer : ℤ → Result Response
answer z = ok (record { result = z; code = pos 0 })

-- `resp(0, 0)` with `code_` set.
abbrev refuse : ℕ → Result Response
refuse n = ok (record { result = pos 0; code = pos n })

unfoldable pub calculator : Request → Result Response
calculator r =
    if r.op == b'+'
    then add_int r.x r.y >>= answer
    else if r.op == b'-'
    then sub_int r.x r.y >>= answer
    else if r.op == b'*'
    then mul_int r.x r.y >>= answer
    else if r.op == b'/'
    then if is_zero r.y then refuse 1 else div_int r.x r.y >>= answer
    else if r.op == b'%'
    then if is_zero r.y then refuse 2 else mod_int r.x r.y >>= answer
    else refuse 3
