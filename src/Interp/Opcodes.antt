-- ===== src/Interp/Opcodes.antt =====
-- The instruction set: `enum instructions` of caml/instruct.h, in its order.
use cc_implementation.Prelude.{ℕ, List, [], ◌∷◌, Option, get_elem?}

pub data Opcode : Type 0 where
  acc0 acc1 acc2 acc3 acc4 acc5 acc6 acc7 acc push pushacc0 pushacc1 pushacc2 pushacc3 : Opcode
  pushacc4 pushacc5 pushacc6 pushacc7 pushacc pop assign envacc1 envacc2 envacc3 envacc4 : Opcode
  envacc pushenvacc1 pushenvacc2 pushenvacc3 pushenvacc4 pushenvacc push_retaddr apply : Opcode
  apply1 apply2 apply3 appterm appterm1 appterm2 appterm3 return restart grab closure : Opcode
  closurerec offsetclosurem3 offsetclosure0 offsetclosure3 offsetclosure pushoffsetclosurem3 :
      Opcode
  pushoffsetclosure0 pushoffsetclosure3 pushoffsetclosure getglobal pushgetglobal : Opcode
  getglobalfield pushgetglobalfield setglobal atom0 atom pushatom0 pushatom makeblock : Opcode
  makeblock1 makeblock2 makeblock3 makefloatblock getfield0 getfield1 getfield2 getfield3 : Opcode
  getfield getfloatfield setfield0 setfield1 setfield2 setfield3 setfield setfloatfield : Opcode
  vectlength getvectitem setvectitem getbyteschar setbyteschar branch branchif branchifnot : Opcode
  switch boolnot pushtrap poptrap raise check_signals c_call1 c_call2 c_call3 c_call4 : Opcode
  c_call5 c_calln const0 const1 const2 const3 constint pushconst0 pushconst1 pushconst2 : Opcode
  pushconst3 pushconstint negint addint subint mulint divint modint andint orint xorint : Opcode
  lslint lsrint asrint eq neq ltint leint gtint geint offsetint offsetref isint getmethod : Opcode
  beq bneq bltint bleint bgtint bgeint ultint ugeint bultint bugeint getpubmet getdynmet : Opcode
  stop event break reraise raise_notrace getstringchar perform resume resumeterm : Opcode
  reperformterm : Opcode

-- The opcodes by their numbers.
abbrev opcodes : List Opcode
opcodes =
    Opcode.acc0 ∷ Opcode.acc1 ∷ Opcode.acc2 ∷ Opcode.acc3 ∷ Opcode.acc4 ∷ Opcode.acc5 ∷ Opcode.acc6
    ∷ Opcode.acc7 ∷ Opcode.acc ∷ Opcode.push ∷ Opcode.pushacc0 ∷ Opcode.pushacc1 ∷ Opcode.pushacc2
    ∷ Opcode.pushacc3 ∷ Opcode.pushacc4 ∷ Opcode.pushacc5 ∷ Opcode.pushacc6 ∷ Opcode.pushacc7
    ∷ Opcode.pushacc ∷ Opcode.pop ∷ Opcode.assign ∷ Opcode.envacc1 ∷ Opcode.envacc2 ∷ Opcode.envacc3
    ∷ Opcode.envacc4 ∷ Opcode.envacc ∷ Opcode.pushenvacc1 ∷ Opcode.pushenvacc2 ∷ Opcode.pushenvacc3
    ∷ Opcode.pushenvacc4 ∷ Opcode.pushenvacc ∷ Opcode.push_retaddr ∷ Opcode.apply ∷ Opcode.apply1
    ∷ Opcode.apply2 ∷ Opcode.apply3 ∷ Opcode.appterm ∷ Opcode.appterm1 ∷ Opcode.appterm2
    ∷ Opcode.appterm3 ∷ Opcode.return ∷ Opcode.restart ∷ Opcode.grab ∷ Opcode.closure
    ∷ Opcode.closurerec ∷ Opcode.offsetclosurem3 ∷ Opcode.offsetclosure0 ∷ Opcode.offsetclosure3
    ∷ Opcode.offsetclosure ∷ Opcode.pushoffsetclosurem3 ∷ Opcode.pushoffsetclosure0
    ∷ Opcode.pushoffsetclosure3 ∷ Opcode.pushoffsetclosure ∷ Opcode.getglobal ∷ Opcode.pushgetglobal
    ∷ Opcode.getglobalfield ∷ Opcode.pushgetglobalfield ∷ Opcode.setglobal ∷ Opcode.atom0
    ∷ Opcode.atom ∷ Opcode.pushatom0 ∷ Opcode.pushatom ∷ Opcode.makeblock ∷ Opcode.makeblock1
    ∷ Opcode.makeblock2 ∷ Opcode.makeblock3 ∷ Opcode.makefloatblock ∷ Opcode.getfield0
    ∷ Opcode.getfield1 ∷ Opcode.getfield2 ∷ Opcode.getfield3 ∷ Opcode.getfield
    ∷ Opcode.getfloatfield ∷ Opcode.setfield0 ∷ Opcode.setfield1 ∷ Opcode.setfield2
    ∷ Opcode.setfield3 ∷ Opcode.setfield ∷ Opcode.setfloatfield ∷ Opcode.vectlength
    ∷ Opcode.getvectitem ∷ Opcode.setvectitem ∷ Opcode.getbyteschar ∷ Opcode.setbyteschar
    ∷ Opcode.branch ∷ Opcode.branchif ∷ Opcode.branchifnot ∷ Opcode.switch ∷ Opcode.boolnot
    ∷ Opcode.pushtrap ∷ Opcode.poptrap ∷ Opcode.raise ∷ Opcode.check_signals ∷ Opcode.c_call1
    ∷ Opcode.c_call2 ∷ Opcode.c_call3 ∷ Opcode.c_call4 ∷ Opcode.c_call5 ∷ Opcode.c_calln
    ∷ Opcode.const0 ∷ Opcode.const1 ∷ Opcode.const2 ∷ Opcode.const3 ∷ Opcode.constint
    ∷ Opcode.pushconst0 ∷ Opcode.pushconst1 ∷ Opcode.pushconst2 ∷ Opcode.pushconst3
    ∷ Opcode.pushconstint ∷ Opcode.negint ∷ Opcode.addint ∷ Opcode.subint ∷ Opcode.mulint
    ∷ Opcode.divint ∷ Opcode.modint ∷ Opcode.andint ∷ Opcode.orint ∷ Opcode.xorint ∷ Opcode.lslint
    ∷ Opcode.lsrint ∷ Opcode.asrint ∷ Opcode.eq ∷ Opcode.neq ∷ Opcode.ltint ∷ Opcode.leint
    ∷ Opcode.gtint ∷ Opcode.geint ∷ Opcode.offsetint ∷ Opcode.offsetref ∷ Opcode.isint
    ∷ Opcode.getmethod ∷ Opcode.beq ∷ Opcode.bneq ∷ Opcode.bltint ∷ Opcode.bleint ∷ Opcode.bgtint
    ∷ Opcode.bgeint ∷ Opcode.ultint ∷ Opcode.ugeint ∷ Opcode.bultint ∷ Opcode.bugeint
    ∷ Opcode.getpubmet ∷ Opcode.getdynmet ∷ Opcode.stop ∷ Opcode.event ∷ Opcode.break
    ∷ Opcode.reraise ∷ Opcode.raise_notrace ∷ Opcode.getstringchar ∷ Opcode.perform ∷ Opcode.resume
    ∷ Opcode.resumeterm ∷ Opcode.reperformterm ∷ []

unfoldable pub decode : ℕ → Option Opcode
decode n = get_elem? opcodes n
