-- ===== src/E1000/Reg.antt =====
-- The offsets of the registers that kernel/src/e1000.rs uses.
use polymorph_os.Prelude.{ℕ}

abbrev pub rctl : ℕ
rctl = 0x100

abbrev pub tctl : ℕ
tctl = 0x400

abbrev pub rdbal : ℕ
rdbal = 0x2800

abbrev pub rdbah : ℕ
rdbah = 0x2804

abbrev pub rdlen : ℕ
rdlen = 0x2808

abbrev pub rdh : ℕ
rdh = 0x2810

abbrev pub rdt : ℕ
rdt = 0x2818

abbrev pub tdbal : ℕ
tdbal = 0x3800

abbrev pub tdbah : ℕ
tdbah = 0x3804

abbrev pub tdlen : ℕ
tdlen = 0x3808

abbrev pub tdh : ℕ
tdh = 0x3810

abbrev pub tdt : ℕ
tdt = 0x3818

abbrev pub ral0 : ℕ
ral0 = 0x5400

abbrev pub rah0 : ℕ
rah0 = 0x5404
