-- ===== src/Avp/MsgTypes.antt =====
-- l2tp/avp.go: the message types, the values of the Message Type AVP.
use Prim.Native.Nat.{ℕ}

abbrev pub avp_msg_type_illegal : ℕ
avp_msg_type_illegal = 0

abbrev pub avp_msg_type_sccrq : ℕ
avp_msg_type_sccrq = 1

abbrev pub avp_msg_type_sccrp : ℕ
avp_msg_type_sccrp = 2

abbrev pub avp_msg_type_scccn : ℕ
avp_msg_type_scccn = 3

abbrev pub avp_msg_type_stopccn : ℕ
avp_msg_type_stopccn = 4

abbrev pub avp_msg_type_reserved5 : ℕ
avp_msg_type_reserved5 = 5

abbrev pub avp_msg_type_hello : ℕ
avp_msg_type_hello = 6

abbrev pub avp_msg_type_ocrq : ℕ
avp_msg_type_ocrq = 7

abbrev pub avp_msg_type_ocrp : ℕ
avp_msg_type_ocrp = 8

abbrev pub avp_msg_type_occn : ℕ
avp_msg_type_occn = 9

abbrev pub avp_msg_type_icrq : ℕ
avp_msg_type_icrq = 10

abbrev pub avp_msg_type_icrp : ℕ
avp_msg_type_icrp = 11

abbrev pub avp_msg_type_iccn : ℕ
avp_msg_type_iccn = 12

abbrev pub avp_msg_type_reserved13 : ℕ
avp_msg_type_reserved13 = 13

abbrev pub avp_msg_type_cdn : ℕ
avp_msg_type_cdn = 14

abbrev pub avp_msg_type_wen : ℕ
avp_msg_type_wen = 15

abbrev pub avp_msg_type_sli : ℕ
avp_msg_type_sli = 16

abbrev pub avp_msg_type_mdmst : ℕ
avp_msg_type_mdmst = 17

abbrev pub avp_msg_type_srrq : ℕ
avp_msg_type_srrq = 18

abbrev pub avp_msg_type_srrp : ℕ
avp_msg_type_srrp = 19

abbrev pub avp_msg_type_ack : ℕ
avp_msg_type_ack = 20

abbrev pub avp_msg_type_fsq : ℕ
avp_msg_type_fsq = 21

abbrev pub avp_msg_type_fsr : ℕ
avp_msg_type_fsr = 22

abbrev pub avp_msg_type_msrq : ℕ
avp_msg_type_msrq = 23

abbrev pub avp_msg_type_msrp : ℕ
avp_msg_type_msrp = 24

abbrev pub avp_msg_type_mse : ℕ
avp_msg_type_mse = 25

abbrev pub avp_msg_type_msi : ℕ
avp_msg_type_msi = 26

abbrev pub avp_msg_type_msen : ℕ
avp_msg_type_msen = 27

abbrev pub avp_msg_type_csun : ℕ
avp_msg_type_csun = 28

abbrev pub avp_msg_type_csurq : ℕ
avp_msg_type_csurq = 29

abbrev pub avp_msg_type_max : ℕ
avp_msg_type_max = 30
