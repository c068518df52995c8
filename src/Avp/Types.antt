-- ===== src/Avp/Types.antt =====
-- l2tp/avp.go: the AVP type identifiers.
use Prim.Native.Nat.{ℕ}

abbrev pub avp_type_message : ℕ
avp_type_message = 0

abbrev pub avp_type_result_code : ℕ
avp_type_result_code = 1

abbrev pub avp_type_protocol_version : ℕ
avp_type_protocol_version = 2

abbrev pub avp_type_framing_cap : ℕ
avp_type_framing_cap = 3

abbrev pub avp_type_bearer_cap : ℕ
avp_type_bearer_cap = 4

abbrev pub avp_type_tiebreaker : ℕ
avp_type_tiebreaker = 5

abbrev pub avp_type_firmware_revision : ℕ
avp_type_firmware_revision = 6

abbrev pub avp_type_host_name : ℕ
avp_type_host_name = 7

abbrev pub avp_type_vendor_name : ℕ
avp_type_vendor_name = 8

abbrev pub avp_type_tunnel_id : ℕ
avp_type_tunnel_id = 9

abbrev pub avp_type_rx_window_size : ℕ
avp_type_rx_window_size = 10

abbrev pub avp_type_challenge : ℕ
avp_type_challenge = 11

abbrev pub avp_type_q931_cause_code : ℕ
avp_type_q931_cause_code = 12

abbrev pub avp_type_challenge_response : ℕ
avp_type_challenge_response = 13

abbrev pub avp_type_session_id : ℕ
avp_type_session_id = 14

abbrev pub avp_type_call_serial_number : ℕ
avp_type_call_serial_number = 15

abbrev pub avp_type_minimum_bps : ℕ
avp_type_minimum_bps = 16

abbrev pub avp_type_maximum_bps : ℕ
avp_type_maximum_bps = 17

abbrev pub avp_type_bearer_type : ℕ
avp_type_bearer_type = 18

abbrev pub avp_type_framing_type : ℕ
avp_type_framing_type = 19

abbrev pub avp_type_packet_proc_delay : ℕ
avp_type_packet_proc_delay = 20

abbrev pub avp_type_called_number : ℕ
avp_type_called_number = 21

abbrev pub avp_type_calling_number : ℕ
avp_type_calling_number = 22

abbrev pub avp_type_sub_address : ℕ
avp_type_sub_address = 23

abbrev pub avp_type_connect_speed : ℕ
avp_type_connect_speed = 24

abbrev pub avp_type_physical_channel_id : ℕ
avp_type_physical_channel_id = 25

abbrev pub avp_type_initial_rcvd_lcp_confreq : ℕ
avp_type_initial_rcvd_lcp_confreq = 26

abbrev pub avp_type_last_sent_lcp_confreq : ℕ
avp_type_last_sent_lcp_confreq = 27

abbrev pub avp_type_last_rcvd_lcp_confreq : ℕ
avp_type_last_rcvd_lcp_confreq = 28

abbrev pub avp_type_proxy_auth_type : ℕ
avp_type_proxy_auth_type = 29

abbrev pub avp_type_proxy_auth_name : ℕ
avp_type_proxy_auth_name = 30

abbrev pub avp_type_proxy_auth_challenge : ℕ
avp_type_proxy_auth_challenge = 31

abbrev pub avp_type_proxy_auth_id : ℕ
avp_type_proxy_auth_id = 32

abbrev pub avp_type_proxy_auth_response : ℕ
avp_type_proxy_auth_response = 33

abbrev pub avp_type_call_errors : ℕ
avp_type_call_errors = 34

abbrev pub avp_type_accm : ℕ
avp_type_accm = 35

abbrev pub avp_type_random_vector : ℕ
avp_type_random_vector = 36

abbrev pub avp_type_priv_group_id : ℕ
avp_type_priv_group_id = 37

abbrev pub avp_type_rx_connect_speed : ℕ
avp_type_rx_connect_speed = 38

abbrev pub avp_type_sequencing_required : ℕ
avp_type_sequencing_required = 39

abbrev pub avp_type_unused40 : ℕ
avp_type_unused40 = 40

abbrev pub avp_type_unused41 : ℕ
avp_type_unused41 = 41

abbrev pub avp_type_unused42 : ℕ
avp_type_unused42 = 42

abbrev pub avp_type_unused43 : ℕ
avp_type_unused43 = 43

abbrev pub avp_type_unused44 : ℕ
avp_type_unused44 = 44

abbrev pub avp_type_unused45 : ℕ
avp_type_unused45 = 45

abbrev pub avp_type_unused46 : ℕ
avp_type_unused46 = 46

abbrev pub avp_type_unused47 : ℕ
avp_type_unused47 = 47

abbrev pub avp_type_unused48 : ℕ
avp_type_unused48 = 48

abbrev pub avp_type_unused49 : ℕ
avp_type_unused49 = 49

abbrev pub avp_type_unused50 : ℕ
avp_type_unused50 = 50

abbrev pub avp_type_unused51 : ℕ
avp_type_unused51 = 51

abbrev pub avp_type_unused52 : ℕ
avp_type_unused52 = 52

abbrev pub avp_type_unused53 : ℕ
avp_type_unused53 = 53

abbrev pub avp_type_unused54 : ℕ
avp_type_unused54 = 54

abbrev pub avp_type_unused55 : ℕ
avp_type_unused55 = 55

abbrev pub avp_type_unused56 : ℕ
avp_type_unused56 = 56

abbrev pub avp_type_unused57 : ℕ
avp_type_unused57 = 57

abbrev pub avp_type_extended : ℕ
avp_type_extended = 58

abbrev pub avp_type_message_digest : ℕ
avp_type_message_digest = 59

abbrev pub avp_type_router_id : ℕ
avp_type_router_id = 60

abbrev pub avp_type_assigned_conn_id : ℕ
avp_type_assigned_conn_id = 61

abbrev pub avp_type_pseudowire_caps : ℕ
avp_type_pseudowire_caps = 62

abbrev pub avp_type_local_session_id : ℕ
avp_type_local_session_id = 63

abbrev pub avp_type_remote_session_id : ℕ
avp_type_remote_session_id = 64

abbrev pub avp_type_assigned_cookie : ℕ
avp_type_assigned_cookie = 65

abbrev pub avp_type_remote_end_id : ℕ
avp_type_remote_end_id = 66

abbrev pub avp_type_unused67 : ℕ
avp_type_unused67 = 67

abbrev pub avp_type_pseudowire_type : ℕ
avp_type_pseudowire_type = 68

abbrev pub avp_type_l2_specific_sublayer : ℕ
avp_type_l2_specific_sublayer = 69

abbrev pub avp_type_data_sequencing : ℕ
avp_type_data_sequencing = 70

abbrev pub avp_type_circuit_status : ℕ
avp_type_circuit_status = 71

abbrev pub avp_type_preferred_language : ℕ
avp_type_preferred_language = 72

abbrev pub avp_type_control_auth_nonce : ℕ
avp_type_control_auth_nonce = 73

abbrev pub avp_type_tx_connect_speed_bps : ℕ
avp_type_tx_connect_speed_bps = 74

abbrev pub avp_type_rx_connect_speed_bps : ℕ
avp_type_rx_connect_speed_bps = 75

abbrev pub avp_type_max : ℕ
avp_type_max = 76
