-- ===== src/Vm/Opcode.antt =====
-- The instruction set: `DIns` of src/dvm.h with its numbers, and the table of instruction sizes
-- `VM_INS_SIZE` of src/dvm.c (the 64-bit build).
use Prim.Native.Nat.{ℕ, ◌+◌}
use mathlib.Core.Path.{◌≡◌, refl}
use mathlib.Core.Option.{Option, some}
use mathlib.Core.List.{List, [], ◌∷◌}
use decision.Prelude.{get_elem?}

pub data DIns : Type 0 where
  op_ret op_retn op_add op_addf op_addbi op_addhi op_addfi op_and op_andbi op_andhi : DIns
  op_andfi op_call op_callc op_callci op_calli op_callr op_callrb op_callrh op_callrf : DIns
  op_ceq op_ceqf op_cleq op_cleqf op_clt op_cltf op_cmeq op_cmeqf op_cmt op_cmtf : DIns
  op_cvtf op_cvti op_deref op_derefi op_derefb op_derefbi op_div op_divf op_divbi : DIns
  op_divhi op_divfi op_get op_getbi op_gethi op_getfi op_inv op_j op_jcon op_jconi : DIns
  op_ji op_jr op_jrbi op_jrhi op_jrfi op_jrcon op_jrconbi op_jrconhi op_jrconfi op_mod : DIns
  op_modbi op_modhi op_modfi op_mul op_mulf op_mulbi op_mulhi op_mulfi op_not op_or : DIns
  op_orbi op_orhi op_orfi op_pop op_popb op_poph op_popf op_pushb op_pushh op_pushf : DIns
  op_pushnb op_pushnh op_pushnf op_setadr op_setadrb op_sub op_subf op_subbi op_subhi : DIns
  op_subfi op_syscall op_xor op_xorbi op_xorhi op_xorfi : DIns

abbrev pub bimmediate_size : ℕ
bimmediate_size = 1

abbrev pub himmediate_size : ℕ
himmediate_size = 4

abbrev pub fimmediate_size : ℕ
fimmediate_size = 8

abbrev pub num_opcodes : ℕ
num_opcodes = 93

-- The value that the enumeration gives an opcode: the byte that encodes it.
abbrev pub byte_of : DIns → ℕ
byte_of op_ret = 0
byte_of op_retn = 1
byte_of op_add = 2
byte_of op_addf = 3
byte_of op_addbi = 4
byte_of op_addhi = 5
byte_of op_addfi = 6
byte_of op_and = 7
byte_of op_andbi = 8
byte_of op_andhi = 9
byte_of op_andfi = 10
byte_of op_call = 11
byte_of op_callc = 12
byte_of op_callci = 13
byte_of op_calli = 14
byte_of op_callr = 15
byte_of op_callrb = 16
byte_of op_callrh = 17
byte_of op_callrf = 18
byte_of op_ceq = 19
byte_of op_ceqf = 20
byte_of op_cleq = 21
byte_of op_cleqf = 22
byte_of op_clt = 23
byte_of op_cltf = 24
byte_of op_cmeq = 25
byte_of op_cmeqf = 26
byte_of op_cmt = 27
byte_of op_cmtf = 28
byte_of op_cvtf = 29
byte_of op_cvti = 30
byte_of op_deref = 31
byte_of op_derefi = 32
byte_of op_derefb = 33
byte_of op_derefbi = 34
byte_of op_div = 35
byte_of op_divf = 36
byte_of op_divbi = 37
byte_of op_divhi = 38
byte_of op_divfi = 39
byte_of op_get = 40
byte_of op_getbi = 41
byte_of op_gethi = 42
byte_of op_getfi = 43
byte_of op_inv = 44
byte_of op_j = 45
byte_of op_jcon = 46
byte_of op_jconi = 47
byte_of op_ji = 48
byte_of op_jr = 49
byte_of op_jrbi = 50
byte_of op_jrhi = 51
byte_of op_jrfi = 52
byte_of op_jrcon = 53
byte_of op_jrconbi = 54
byte_of op_jrconhi = 55
byte_of op_jrconfi = 56
byte_of op_mod = 57
byte_of op_modbi = 58
byte_of op_modhi = 59
byte_of op_modfi = 60
byte_of op_mul = 61
byte_of op_mulf = 62
byte_of op_mulbi = 63
byte_of op_mulhi = 64
byte_of op_mulfi = 65
byte_of op_not = 66
byte_of op_or = 67
byte_of op_orbi = 68
byte_of op_orhi = 69
byte_of op_orfi = 70
byte_of op_pop = 71
byte_of op_popb = 72
byte_of op_poph = 73
byte_of op_popf = 74
byte_of op_pushb = 75
byte_of op_pushh = 76
byte_of op_pushf = 77
byte_of op_pushnb = 78
byte_of op_pushnh = 79
byte_of op_pushnf = 80
byte_of op_setadr = 81
byte_of op_setadrb = 82
byte_of op_sub = 83
byte_of op_subf = 84
byte_of op_subbi = 85
byte_of op_subhi = 86
byte_of op_subfi = 87
byte_of op_syscall = 88
byte_of op_xor = 89
byte_of op_xorbi = 90
byte_of op_xorhi = 91
byte_of op_xorfi = 92

-- `VM_INS_SIZE[opcode]`.
abbrev pub ins_size : DIns → ℕ
ins_size op_ret = 1
ins_size op_retn = 1 + bimmediate_size
ins_size op_add = 1
ins_size op_addf = 1
ins_size op_addbi = 1 + bimmediate_size
ins_size op_addhi = 1 + himmediate_size
ins_size op_addfi = 1 + fimmediate_size
ins_size op_and = 1
ins_size op_andbi = 1 + bimmediate_size
ins_size op_andhi = 1 + himmediate_size
ins_size op_andfi = 1 + fimmediate_size
ins_size op_call = 1 + bimmediate_size
ins_size op_callc = 1 + bimmediate_size
ins_size op_callci = 1 + fimmediate_size + bimmediate_size
ins_size op_calli = 1 + fimmediate_size + bimmediate_size
ins_size op_callr = 1 + bimmediate_size
ins_size op_callrb = 1 + bimmediate_size + bimmediate_size
ins_size op_callrh = 1 + himmediate_size + bimmediate_size
ins_size op_callrf = 1 + fimmediate_size + bimmediate_size
ins_size op_ceq = 1
ins_size op_ceqf = 1
ins_size op_cleq = 1
ins_size op_cleqf = 1
ins_size op_clt = 1
ins_size op_cltf = 1
ins_size op_cmeq = 1
ins_size op_cmeqf = 1
ins_size op_cmt = 1
ins_size op_cmtf = 1
ins_size op_cvtf = 1
ins_size op_cvti = 1
ins_size op_deref = 1
ins_size op_derefi = 1 + fimmediate_size
ins_size op_derefb = 1
ins_size op_derefbi = 1 + fimmediate_size
ins_size op_div = 1
ins_size op_divf = 1
ins_size op_divbi = 1 + bimmediate_size
ins_size op_divhi = 1 + himmediate_size
ins_size op_divfi = 1 + fimmediate_size
ins_size op_get = 1
ins_size op_getbi = 1 + bimmediate_size
ins_size op_gethi = 1 + himmediate_size
ins_size op_getfi = 1 + fimmediate_size
ins_size op_inv = 1
ins_size op_j = 1
ins_size op_jcon = 1
ins_size op_jconi = 1 + fimmediate_size
ins_size op_ji = 1 + fimmediate_size
ins_size op_jr = 1
ins_size op_jrbi = 1 + bimmediate_size
ins_size op_jrhi = 1 + himmediate_size
ins_size op_jrfi = 1 + fimmediate_size
ins_size op_jrcon = 1
ins_size op_jrconbi = 1 + bimmediate_size
ins_size op_jrconhi = 1 + himmediate_size
ins_size op_jrconfi = 1 + fimmediate_size
ins_size op_mod = 1
ins_size op_modbi = 1 + bimmediate_size
ins_size op_modhi = 1 + himmediate_size
ins_size op_modfi = 1 + fimmediate_size
ins_size op_mul = 1
ins_size op_mulf = 1
ins_size op_mulbi = 1 + bimmediate_size
ins_size op_mulhi = 1 + himmediate_size
ins_size op_mulfi = 1 + fimmediate_size
ins_size op_not = 1
ins_size op_or = 1
ins_size op_orbi = 1 + bimmediate_size
ins_size op_orhi = 1 + himmediate_size
ins_size op_orfi = 1 + fimmediate_size
ins_size op_pop = 1
ins_size op_popb = 1 + bimmediate_size
ins_size op_poph = 1 + himmediate_size
ins_size op_popf = 1 + fimmediate_size
ins_size op_pushb = 1 + bimmediate_size
ins_size op_pushh = 1 + himmediate_size
ins_size op_pushf = 1 + fimmediate_size
ins_size op_pushnb = 1 + bimmediate_size
ins_size op_pushnh = 1 + himmediate_size
ins_size op_pushnf = 1 + fimmediate_size
ins_size op_setadr = 1
ins_size op_setadrb = 1
ins_size op_sub = 1
ins_size op_subf = 1
ins_size op_subbi = 1 + bimmediate_size
ins_size op_subhi = 1 + himmediate_size
ins_size op_subfi = 1 + fimmediate_size
ins_size op_syscall = 1 + bimmediate_size
ins_size op_xor = 1
ins_size op_xorbi = 1 + bimmediate_size
ins_size op_xorhi = 1 + himmediate_size
ins_size op_xorfi = 1 + fimmediate_size

-- The opcodes in the order of their numbers.
abbrev opcodes : List DIns
opcodes =
    op_ret ∷ op_retn ∷ op_add ∷ op_addf ∷ op_addbi ∷ op_addhi ∷ op_addfi ∷ op_and ∷ op_andbi
    ∷ op_andhi ∷ op_andfi ∷ op_call ∷ op_callc ∷ op_callci ∷ op_calli ∷ op_callr ∷ op_callrb
    ∷ op_callrh ∷ op_callrf ∷ op_ceq ∷ op_ceqf ∷ op_cleq ∷ op_cleqf ∷ op_clt ∷ op_cltf ∷ op_cmeq
    ∷ op_cmeqf ∷ op_cmt ∷ op_cmtf ∷ op_cvtf ∷ op_cvti ∷ op_deref ∷ op_derefi ∷ op_derefb
    ∷ op_derefbi ∷ op_div ∷ op_divf ∷ op_divbi ∷ op_divhi ∷ op_divfi ∷ op_get ∷ op_getbi ∷ op_gethi
    ∷ op_getfi ∷ op_inv ∷ op_j ∷ op_jcon ∷ op_jconi ∷ op_ji ∷ op_jr ∷ op_jrbi ∷ op_jrhi ∷ op_jrfi
    ∷ op_jrcon ∷ op_jrconbi ∷ op_jrconhi ∷ op_jrconfi ∷ op_mod ∷ op_modbi ∷ op_modhi ∷ op_modfi
    ∷ op_mul ∷ op_mulf ∷ op_mulbi ∷ op_mulhi ∷ op_mulfi ∷ op_not ∷ op_or ∷ op_orbi ∷ op_orhi
    ∷ op_orfi ∷ op_pop ∷ op_popb ∷ op_poph ∷ op_popf ∷ op_pushb ∷ op_pushh ∷ op_pushf ∷ op_pushnb
    ∷ op_pushnh ∷ op_pushnf ∷ op_setadr ∷ op_setadrb ∷ op_sub ∷ op_subf ∷ op_subbi ∷ op_subhi
    ∷ op_subfi ∷ op_syscall ∷ op_xor ∷ op_xorbi ∷ op_xorhi ∷ op_xorfi ∷ []

-- The case label that `switch (opcode)` takes for a byte; `none` is the `default` label.
unfoldable pub decode : ℕ → Option DIns
decode b = get_elem? opcodes b

-- The switch takes the byte of every opcode to that opcode.
pub decode-byte_of : (op : DIns) → decode (byte_of op) ≡ some op
unfolding decode
decode-byte_of op_ret = refl
decode-byte_of _ = refl
