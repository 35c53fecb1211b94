-- ===== src/Decoder/Names.antt =====
-- The instructions by extension, and a decoded instruction: include/core/decoder.hpp.
use uotan_riscv_emu_ng.Base.{ℕ}

pub data Rv64i : Type 0 where
  add addi addiw addw and andi auipc beq bge bgeu blt bltu bne fence fence_i jal jalr : Rv64i
  lb lbu ld lh lhu lui lw lwu or ori sb sd sh sw sll slli slliw sllw slt slti sltiu sltu : Rv64i
  sra srai sraiw sraw srl srli srliw srlw sub subw xor xori : Rv64i

pub data Zicsr : Type 0 where
  csrrc csrrci csrrs csrrsi csrrw csrrwi : Zicsr

pub data Privileged : Type 0 where
  ebreak ecall mret sret wfi sfence_vma : Privileged

pub data Rv64m : Type 0 where
  mul mulh mulhsu mulhu mulw div divu divuw divw rem remu remuw remw : Rv64m

pub data Rv64a : Type 0 where
  lr_d lr_w sc_d sc_w amoadd_d amoadd_w amoand_d amoand_w amoor_d amoor_w amoxor_d : Rv64a
  amoxor_w amomax_d amomax_w amomaxu_d amomaxu_w amomin_d amomin_w amominu_d : Rv64a
  amominu_w amoswap_d amoswap_w : Rv64a

pub data Rv64f : Type 0 where
  flw fsw fadd_s fsub_s fmul_s fdiv_s fsqrt_s fsgnj_s fsgnjn_s fsgnjx_s fmin_s fmax_s : Rv64f
  fclass_s feq_s flt_s fle_s fmadd_s fmsub_s fnmsub_s fnmadd_s fcvt_w_s fcvt_wu_s : Rv64f
  fcvt_l_s fcvt_lu_s fcvt_s_w fcvt_s_wu fcvt_s_l fcvt_s_lu fmv_x_w fmv_w_x : Rv64f

pub data Rv64d : Type 0 where
  fld fsd fadd_d fsub_d fmul_d fdiv_d fsqrt_d fsgnj_d fsgnjn_d fsgnjx_d fmin_d fmax_d : Rv64d
  fclass_d feq_d flt_d fle_d fmadd_d fmsub_d fnmsub_d fnmadd_d fcvt_w_d fcvt_wu_d : Rv64d
  fcvt_l_d fcvt_lu_d fcvt_d_w fcvt_d_wu fcvt_d_l fcvt_d_lu fcvt_s_d fcvt_d_s fmv_x_d : Rv64d
  fmv_d_x : Rv64d

pub data Rv64c : Type 0 where
  c_nop c_addi c_addiw c_li c_addi16sp c_lui c_srli c_srai c_andi c_sub c_xor c_or c_and : Rv64c
  c_subw c_addw c_j c_beqz c_bnez c_addi4spn c_fld c_lw c_ld c_fsd c_sw c_sd c_slli : Rv64c
  c_fldsp c_lwsp c_ldsp c_jr c_mv c_ebreak c_jalr c_add c_fsdsp c_swsp c_sdsp : Rv64c

-- `Iname`, with the extension as its constructor; `exec` of an instruction is found by its name.
pub data Iname : Type 0 where
  rv64i : Rv64i → Iname
  zicsr : Zicsr → Iname
  privileged : Privileged → Iname
  rv64m : Rv64m → Iname
  rv64a : Rv64a → Iname
  rv64f : Rv64f → Iname
  rv64d : Rv64d → Iname
  rv64c : Rv64c → Iname
  c_inv inv : Iname

pub data Itype : Type 0 where
  type_i type_u type_s type_j type_r type_b type_r4 : Itype
  type_cr type_ci type_css type_ciw type_cl type_cs type_ca type_cb type_cj type_n : Itype

pub data Ilen : Type 0 where
  compressed normal : Ilen

pub record DecodedInsn : Type 0 where
  pub insn : ℕ
  pub len : Ilen
  pub iname : Iname
  pub type : Itype
  pub rd : ℕ
  pub rs1 : ℕ
  pub rs2 : ℕ
  pub rs3 : ℕ
  pub imm : ℕ
  pub pc : ℕ
