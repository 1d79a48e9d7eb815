-- ===== src/Fixture/Transaction.antt =====
-- `rawTx` of rust/tests/fixtures/t1_578528.json, in bytes.
use verusid_cmm_encrypt.Common.{[], ◌∷◌, Bytes}

abbrev pub raw_tx : Bytes
raw_tx =
    0x04 ∷ 0x00 ∷ 0x00 ∷ 0x80 ∷ 0x85 ∷ 0x20 ∷ 0x2f ∷ 0x89 ∷ 0x02 ∷ 0x47 ∷ 0x9c ∷ 0xf1 ∷ 0x87 ∷ 0x00
    ∷ 0xc6 ∷ 0xd1 ∷ 0x9a ∷ 0x99 ∷ 0x9e ∷ 0xe8 ∷ 0x7d ∷ 0x0a ∷ 0x7c ∷ 0xcc ∷ 0xe4 ∷ 0x5f ∷ 0x92
    ∷ 0x7c ∷ 0xc9 ∷ 0x4e ∷ 0x3b ∷ 0x3c ∷ 0x4d ∷ 0xf9 ∷ 0xdf ∷ 0xcc ∷ 0x07 ∷ 0xa1 ∷ 0x2d ∷ 0xb7
    ∷ 0x80 ∷ 0x00 ∷ 0x00 ∷ 0x00 ∷ 0x00 ∷ 0x69 ∷ 0x4c ∷ 0x67 ∷ 0x01 ∷ 0x01 ∷ 0x01 ∷ 0x01 ∷ 0x21
    ∷ 0x03 ∷ 0xf9 ∷ 0xea ∷ 0x68 ∷ 0x70 ∷ 0x6d ∷ 0xfc ∷ 0x7f ∷ 0x21 ∷ 0x07 ∷ 0xb1 ∷ 0x1c ∷ 0xce
    ∷ 0x46 ∷ 0x60 ∷ 0x7e ∷ 0x7c ∷ 0xa1 ∷ 0x93 ∷ 0x51 ∷ 0xb2 ∷ 0xbd ∷ 0x9d ∷ 0xe5 ∷ 0xbf ∷ 0x42
    ∷ 0xd0 ∷ 0xfc ∷ 0x86 ∷ 0x55 ∷ 0xe8 ∷ 0x3f ∷ 0x53 ∷ 0x40 ∷ 0xe0 ∷ 0x13 ∷ 0x33 ∷ 0x77 ∷ 0x05
    ∷ 0xfa ∷ 0xc8 ∷ 0xbf ∷ 0xe1 ∷ 0x1b ∷ 0xc5 ∷ 0x8e ∷ 0x20 ∷ 0xc2 ∷ 0x69 ∷ 0xa3 ∷ 0x65 ∷ 0x62
    ∷ 0x80 ∷ 0x3b ∷ 0x53 ∷ 0x63 ∷ 0x5e ∷ 0xcc ∷ 0x62 ∷ 0x13 ∷ 0x14 ∷ 0x99 ∷ 0xb1 ∷ 0xeb ∷ 0xf2
    ∷ 0xc1 ∷ 0x3b ∷ 0x79 ∷ 0xfb ∷ 0x62 ∷ 0x11 ∷ 0x14 ∷ 0xcd ∷ 0x7b ∷ 0xfb ∷ 0xde ∷ 0x68 ∷ 0xa4
    ∷ 0x2d ∷ 0x38 ∷ 0xc1 ∷ 0xfa ∷ 0xe3 ∷ 0x2c ∷ 0x4a ∷ 0x61 ∷ 0xb8 ∷ 0xce ∷ 0x71 ∷ 0x61 ∷ 0xf3
    ∷ 0x46 ∷ 0x02 ∷ 0xde ∷ 0xfb ∷ 0xdb ∷ 0xe5 ∷ 0x28 ∷ 0xff ∷ 0xff ∷ 0xff ∷ 0xff ∷ 0xc8 ∷ 0xc4
    ∷ 0xd5 ∷ 0xb4 ∷ 0xda ∷ 0x3e ∷ 0xca ∷ 0x81 ∷ 0xe4 ∷ 0xc4 ∷ 0x56 ∷ 0xc3 ∷ 0x1a ∷ 0x4c ∷ 0xd0
    ∷ 0x19 ∷ 0x88 ∷ 0xb7 ∷ 0xfd ∷ 0x96 ∷ 0x44 ∷ 0xe4 ∷ 0xab ∷ 0x99 ∷ 0x1d ∷ 0x32 ∷ 0x41 ∷ 0x61
    ∷ 0x69 ∷ 0x10 ∷ 0xdc ∷ 0x78 ∷ 0x00 ∷ 0x00 ∷ 0x00 ∷ 0x00 ∷ 0x69 ∷ 0x4c ∷ 0x67 ∷ 0x01 ∷ 0x01
    ∷ 0x01 ∷ 0x01 ∷ 0x21 ∷ 0x03 ∷ 0xf9 ∷ 0xea ∷ 0x68 ∷ 0x70 ∷ 0x6d ∷ 0xfc ∷ 0x7f ∷ 0x21 ∷ 0x07
    ∷ 0xb1 ∷ 0x1c ∷ 0xce ∷ 0x46 ∷ 0x60 ∷ 0x7e ∷ 0x7c ∷ 0xa1 ∷ 0x93 ∷ 0x51 ∷ 0xb2 ∷ 0xbd ∷ 0x9d
    ∷ 0xe5 ∷ 0xbf ∷ 0x42 ∷ 0xd0 ∷ 0xfc ∷ 0x86 ∷ 0x55 ∷ 0xe8 ∷ 0x3f ∷ 0x53 ∷ 0x40 ∷ 0x4e ∷ 0x3a
    ∷ 0x70 ∷ 0x11 ∷ 0xbb ∷ 0x82 ∷ 0xe8 ∷ 0xe7 ∷ 0x84 ∷ 0x43 ∷ 0xc6 ∷ 0x38 ∷ 0x66 ∷ 0xce ∷ 0xe0
    ∷ 0xa8 ∷ 0x8a ∷ 0x6e ∷ 0x09 ∷ 0x0f ∷ 0x3d ∷ 0x4f ∷ 0xc0 ∷ 0x84 ∷ 0xd6 ∷ 0xfc ∷ 0x07 ∷ 0x99
    ∷ 0x47 ∷ 0x57 ∷ 0xac ∷ 0x32 ∷ 0x42 ∷ 0xa8 ∷ 0xbb ∷ 0x22 ∷ 0x17 ∷ 0xba ∷ 0x80 ∷ 0x30 ∷ 0xe3
    ∷ 0x78 ∷ 0x6b ∷ 0x10 ∷ 0x6a ∷ 0x7a ∷ 0xaa ∷ 0x01 ∷ 0xb9 ∷ 0x13 ∷ 0x36 ∷ 0xb8 ∷ 0x91 ∷ 0x88
    ∷ 0x0f ∷ 0x5c ∷ 0x8f ∷ 0x59 ∷ 0x1a ∷ 0xaa ∷ 0x23 ∷ 0xea ∷ 0x90 ∷ 0x0a ∷ 0xff ∷ 0xff ∷ 0xff
    ∷ 0xff ∷ 0x03 ∷ 0x00 ∷ 0x00 ∷ 0x00 ∷ 0x00 ∷ 0x00 ∷ 0x00 ∷ 0x00 ∷ 0x00 ∷ 0xfd ∷ 0xbf ∷ 0x01
    ∷ 0x27 ∷ 0x04 ∷ 0x03 ∷ 0x00 ∷ 0x01 ∷ 0x01 ∷ 0x21 ∷ 0x03 ∷ 0xe1 ∷ 0x89 ∷ 0x4e ∷ 0x9d ∷ 0x48
    ∷ 0x71 ∷ 0x25 ∷ 0xbe ∷ 0x5a ∷ 0x8c ∷ 0x66 ∷ 0x57 ∷ 0xa8 ∷ 0xce ∷ 0x01 ∷ 0xbc ∷ 0x81 ∷ 0xba
    ∷ 0x78 ∷ 0x16 ∷ 0xd6 ∷ 0x98 ∷ 0xdb ∷ 0xfc ∷ 0xfb ∷ 0x04 ∷ 0x83 ∷ 0x75 ∷ 0x4e ∷ 0xb5 ∷ 0xa2
    ∷ 0xd9 ∷ 0xcc ∷ 0x4d ∷ 0x92 ∷ 0x01 ∷ 0x04 ∷ 0x03 ∷ 0x03 ∷ 0x01 ∷ 0x01 ∷ 0x21 ∷ 0x03 ∷ 0xe1
    ∷ 0x89 ∷ 0x4e ∷ 0x9d ∷ 0x48 ∷ 0x71 ∷ 0x25 ∷ 0xbe ∷ 0x5a ∷ 0x8c ∷ 0x66 ∷ 0x57 ∷ 0xa8 ∷ 0xce
    ∷ 0x01 ∷ 0xbc ∷ 0x81 ∷ 0xba ∷ 0x78 ∷ 0x16 ∷ 0xd6 ∷ 0x98 ∷ 0xdb ∷ 0xfc ∷ 0xfb ∷ 0x04 ∷ 0x83
    ∷ 0x75 ∷ 0x4e ∷ 0xb5 ∷ 0xa2 ∷ 0xd9 ∷ 0x4d ∷ 0x68 ∷ 0x01 ∷ 0x01 ∷ 0x03 ∷ 0xa6 ∷ 0xef ∷ 0x9e
    ∷ 0xa2 ∷ 0x35 ∷ 0x63 ∷ 0x5e ∷ 0x32 ∷ 0x81 ∷ 0x24 ∷ 0xff ∷ 0x34 ∷ 0x29 ∷ 0xdb ∷ 0x9f ∷ 0x9e
    ∷ 0x91 ∷ 0xb6 ∷ 0x4e ∷ 0x2d ∷ 0x00 ∷ 0x00 ∷ 0x00 ∷ 0x00 ∷ 0x00 ∷ 0x00 ∷ 0x00 ∷ 0x00 ∷ 0x00
    ∷ 0x00 ∷ 0x00 ∷ 0x00 ∷ 0x00 ∷ 0x00 ∷ 0x00 ∷ 0x00 ∷ 0x00 ∷ 0x00 ∷ 0x00 ∷ 0x00 ∷ 0x00 ∷ 0x00
    ∷ 0x00 ∷ 0x00 ∷ 0x00 ∷ 0x00 ∷ 0x00 ∷ 0x00 ∷ 0x00 ∷ 0x00 ∷ 0x00 ∷ 0x00 ∷ 0x00 ∷ 0x00 ∷ 0x00
    ∷ 0x00 ∷ 0x02 ∷ 0x01 ∷ 0x00 ∷ 0x00 ∷ 0x00 ∷ 0x01 ∷ 0x0a ∷ 0x00 ∷ 0x01 ∷ 0x01 ∷ 0x01 ∷ 0x08
    ∷ 0xa2 ∷ 0xeb ∷ 0xb2 ∷ 0xc5 ∷ 0x5f ∷ 0x83 ∷ 0xa8 ∷ 0xe2 ∷ 0xa4 ∷ 0x26 ∷ 0xa5 ∷ 0x33 ∷ 0x20
    ∷ 0xed ∷ 0x4d ∷ 0x42 ∷ 0x12 ∷ 0x4f ∷ 0x4d ∷ 0xfd ∷ 0x0c ∷ 0x01 ∷ 0x08 ∷ 0xa2 ∷ 0xeb ∷ 0xb2
    ∷ 0xc5 ∷ 0x5f ∷ 0x83 ∷ 0xa8 ∷ 0xe2 ∷ 0xa4 ∷ 0x26 ∷ 0xa5 ∷ 0x33 ∷ 0x20 ∷ 0xed ∷ 0x4d ∷ 0x42
    ∷ 0x12 ∷ 0x4f ∷ 0x4d ∷ 0x01 ∷ 0xf6 ∷ 0x01 ∷ 0x05 ∷ 0xd2 ∷ 0xf7 ∷ 0x3a ∷ 0x62 ∷ 0x7a ∷ 0xbc
    ∷ 0xe0 ∷ 0x0d ∷ 0x9b ∷ 0xd5 ∷ 0xea ∷ 0x0c ∷ 0x36 ∷ 0x0f ∷ 0xc0 ∷ 0x6b ∷ 0xea ∷ 0xe0 ∷ 0x27
    ∷ 0x9f ∷ 0x5a ∷ 0x5b ∷ 0x0a ∷ 0x20 ∷ 0x67 ∷ 0x96 ∷ 0x3b ∷ 0xbd ∷ 0xc9 ∷ 0xf6 ∷ 0xbc ∷ 0xe9
    ∷ 0x44 ∷ 0xe5 ∷ 0xf0 ∷ 0x20 ∷ 0x8e ∷ 0xd0 ∷ 0x17 ∷ 0x63 ∷ 0xa4 ∷ 0x75 ∷ 0x19 ∷ 0xd1 ∷ 0x42
    ∷ 0x54 ∷ 0xf2 ∷ 0xf6 ∷ 0xbe ∷ 0xe3 ∷ 0x45 ∷ 0x9d ∷ 0x1a ∷ 0x0a ∷ 0xa8 ∷ 0x8d ∷ 0x19 ∷ 0xae
    ∷ 0x31 ∷ 0xa7 ∷ 0x0d ∷ 0xbb ∷ 0x78 ∷ 0xc9 ∷ 0xe0 ∷ 0xc0 ∷ 0xe4 ∷ 0x1f ∷ 0xf3 ∷ 0xd1 ∷ 0x8c
    ∷ 0x75 ∷ 0x51 ∷ 0x86 ∷ 0x00 ∷ 0x39 ∷ 0x76 ∷ 0x56 ∷ 0x26 ∷ 0x17 ∷ 0x9a ∷ 0x9c ∷ 0xc7 ∷ 0xfc
    ∷ 0xaf ∷ 0x85 ∷ 0x99 ∷ 0x8e ∷ 0x93 ∷ 0x74 ∷ 0x02 ∷ 0x3f ∷ 0xf3 ∷ 0x49 ∷ 0x00 ∷ 0xbf ∷ 0xa8
    ∷ 0x96 ∷ 0x31 ∷ 0xeb ∷ 0xbc ∷ 0x4d ∷ 0x33 ∷ 0x19 ∷ 0x12 ∷ 0x1a ∷ 0x89 ∷ 0xf3 ∷ 0x1d ∷ 0xe7
    ∷ 0xfa ∷ 0x23 ∷ 0xf7 ∷ 0x84 ∷ 0x72 ∷ 0xbf ∷ 0xda ∷ 0x87 ∷ 0xa1 ∷ 0x0b ∷ 0xc0 ∷ 0xff ∷ 0x9e
    ∷ 0xd2 ∷ 0xca ∷ 0x00 ∷ 0x24 ∷ 0x99 ∷ 0xae ∷ 0x4f ∷ 0x8f ∷ 0x69 ∷ 0x11 ∷ 0x76 ∷ 0x25 ∷ 0x29
    ∷ 0x7c ∷ 0x08 ∷ 0x8e ∷ 0x18 ∷ 0x77 ∷ 0x93 ∷ 0xdf ∷ 0x6e ∷ 0x67 ∷ 0x2a ∷ 0xb9 ∷ 0x07 ∷ 0x88
    ∷ 0x77 ∷ 0x0f ∷ 0x00 ∷ 0x84 ∷ 0xab ∷ 0xbd ∷ 0x7c ∷ 0x21 ∷ 0x83 ∷ 0x26 ∷ 0x1b ∷ 0x11 ∷ 0xb8
    ∷ 0x2d ∷ 0xa2 ∷ 0x15 ∷ 0x4e ∷ 0x46 ∷ 0x36 ∷ 0x51 ∷ 0x1f ∷ 0x33 ∷ 0x86 ∷ 0xaf ∷ 0xa6 ∷ 0xae
    ∷ 0xe4 ∷ 0x52 ∷ 0x85 ∷ 0xcb ∷ 0x58 ∷ 0x3f ∷ 0x12 ∷ 0x0f ∷ 0x94 ∷ 0xdb ∷ 0xa9 ∷ 0x7f ∷ 0x2c
    ∷ 0xf9 ∷ 0x03 ∷ 0x89 ∷ 0x6d ∷ 0x5c ∷ 0xc8 ∷ 0xdf ∷ 0x4f ∷ 0xf7 ∷ 0xd8 ∷ 0x8a ∷ 0x4d ∷ 0xcb
    ∷ 0x3a ∷ 0x7d ∷ 0x5c ∷ 0xf8 ∷ 0x93 ∷ 0x35 ∷ 0xd1 ∷ 0x7a ∷ 0x45 ∷ 0x83 ∷ 0x20 ∷ 0x22 ∷ 0xd8
    ∷ 0x38 ∷ 0x4b ∷ 0x42 ∷ 0x20 ∷ 0x28 ∷ 0x0f ∷ 0x31 ∷ 0xe3 ∷ 0xf3 ∷ 0x46 ∷ 0x9b ∷ 0x35 ∷ 0xc4
    ∷ 0x9d ∷ 0x29 ∷ 0xbe ∷ 0x79 ∷ 0x5a ∷ 0x5c ∷ 0x70 ∷ 0xaf ∷ 0x30 ∷ 0xea ∷ 0x7f ∷ 0x7b ∷ 0xb0
    ∷ 0x33 ∷ 0x55 ∷ 0xc6 ∷ 0xe7 ∷ 0x75 ∷ 0x44 ∷ 0xa3 ∷ 0x4c ∷ 0xed ∷ 0x00 ∷ 0x00 ∷ 0x00 ∷ 0x00
    ∷ 0x24 ∷ 0x05 ∷ 0x04 ∷ 0x03 ∷ 0x00 ∷ 0x00 ∷ 0x00 ∷ 0xcc ∷ 0x1b ∷ 0x04 ∷ 0x03 ∷ 0x00 ∷ 0x01
    ∷ 0x01 ∷ 0x15 ∷ 0x04 ∷ 0xa7 ∷ 0x41 ∷ 0x4c ∷ 0xd8 ∷ 0x9c ∷ 0x2d ∷ 0x28 ∷ 0x2b ∷ 0xac ∷ 0x9b
    ∷ 0x61 ∷ 0xed ∷ 0x5b ∷ 0xf3 ∷ 0x67 ∷ 0x9d ∷ 0x4b ∷ 0x66 ∷ 0xa5 ∷ 0xf6 ∷ 0x75 ∷ 0x00 ∷ 0x00
    ∷ 0x00 ∷ 0x00 ∷ 0x00 ∷ 0x00 ∷ 0x00 ∷ 0x00 ∷ 0xfd ∷ 0x64 ∷ 0x02 ∷ 0x47 ∷ 0x04 ∷ 0x03 ∷ 0x00
    ∷ 0x01 ∷ 0x03 ∷ 0x15 ∷ 0x04 ∷ 0xa7 ∷ 0x41 ∷ 0x4c ∷ 0xd8 ∷ 0x9c ∷ 0x2d ∷ 0x28 ∷ 0x2b ∷ 0xac
    ∷ 0x9b ∷ 0x61 ∷ 0xed ∷ 0x5b ∷ 0xf3 ∷ 0x67 ∷ 0x9d ∷ 0x4b ∷ 0x66 ∷ 0xa5 ∷ 0xf6 ∷ 0x15 ∷ 0x04
    ∷ 0xa7 ∷ 0x41 ∷ 0x4c ∷ 0xd8 ∷ 0x9c ∷ 0x2d ∷ 0x28 ∷ 0x2b ∷ 0xac ∷ 0x9b ∷ 0x61 ∷ 0xed ∷ 0x5b
    ∷ 0xf3 ∷ 0x67 ∷ 0x9d ∷ 0x4b ∷ 0x66 ∷ 0xa5 ∷ 0xf6 ∷ 0x15 ∷ 0x04 ∷ 0xa7 ∷ 0x41 ∷ 0x4c ∷ 0xd8
    ∷ 0x9c ∷ 0x2d ∷ 0x28 ∷ 0x2b ∷ 0xac ∷ 0x9b ∷ 0x61 ∷ 0xed ∷ 0x5b ∷ 0xf3 ∷ 0x67 ∷ 0x9d ∷ 0x4b
    ∷ 0x66 ∷ 0xa5 ∷ 0xf6 ∷ 0xcc ∷ 0x4d ∷ 0x17 ∷ 0x02 ∷ 0x04 ∷ 0x03 ∷ 0x0e ∷ 0x01 ∷ 0x01 ∷ 0x15
    ∷ 0x04 ∷ 0xa7 ∷ 0x41 ∷ 0x4c ∷ 0xd8 ∷ 0x9c ∷ 0x2d ∷ 0x28 ∷ 0x2b ∷ 0xac ∷ 0x9b ∷ 0x61 ∷ 0xed
    ∷ 0x5b ∷ 0xf3 ∷ 0x67 ∷ 0x9d ∷ 0x4b ∷ 0x66 ∷ 0xa5 ∷ 0xf6 ∷ 0x4d ∷ 0xc1 ∷ 0x01 ∷ 0x03 ∷ 0x00
    ∷ 0x00 ∷ 0x00 ∷ 0x00 ∷ 0x00 ∷ 0x00 ∷ 0x00 ∷ 0x01 ∷ 0x14 ∷ 0xe5 ∷ 0x88 ∷ 0x0d ∷ 0x57 ∷ 0xba
    ∷ 0xd8 ∷ 0x10 ∷ 0x57 ∷ 0x8d ∷ 0x87 ∷ 0xdc ∷ 0x50 ∷ 0x28 ∷ 0xa9 ∷ 0xa1 ∷ 0xc7 ∷ 0xbe ∷ 0x12
    ∷ 0xe9 ∷ 0x1f ∷ 0x01 ∷ 0x00 ∷ 0x00 ∷ 0x00 ∷ 0xa6 ∷ 0xef ∷ 0x9e ∷ 0xa2 ∷ 0x35 ∷ 0x63 ∷ 0x5e
    ∷ 0x32 ∷ 0x81 ∷ 0x24 ∷ 0xff ∷ 0x34 ∷ 0x29 ∷ 0xdb ∷ 0x9f ∷ 0x9e ∷ 0x91 ∷ 0xb6 ∷ 0x4e ∷ 0x2d
    ∷ 0x02 ∷ 0x54 ∷ 0x31 ∷ 0x03 ∷ 0x54 ∷ 0x3c ∷ 0xd0 ∷ 0xf5 ∷ 0x44 ∷ 0xa7 ∷ 0x4c ∷ 0xe6 ∷ 0xce
    ∷ 0xa3 ∷ 0x1d ∷ 0x1c ∷ 0x58 ∷ 0x85 ∷ 0x77 ∷ 0xaa ∷ 0x52 ∷ 0xaf ∷ 0x66 ∷ 0x0c ∷ 0x01 ∷ 0x14
    ∷ 0x68 ∷ 0x68 ∷ 0x68 ∷ 0x68 ∷ 0x68 ∷ 0x68 ∷ 0x68 ∷ 0x68 ∷ 0x68 ∷ 0x68 ∷ 0x68 ∷ 0x68 ∷ 0x68
    ∷ 0x68 ∷ 0x68 ∷ 0x68 ∷ 0x68 ∷ 0x68 ∷ 0x68 ∷ 0x68 ∷ 0x90 ∷ 0x4c ∷ 0xc8 ∷ 0x69 ∷ 0xa5 ∷ 0x66
    ∷ 0x10 ∷ 0xc8 ∷ 0x17 ∷ 0x4e ∷ 0xad ∷ 0x6c ∷ 0x54 ∷ 0x7f ∷ 0xba ∷ 0xe1 ∷ 0x95 ∷ 0x48 ∷ 0x52
    ∷ 0xaf ∷ 0x01 ∷ 0x2c ∷ 0xab ∷ 0x8b ∷ 0x7b ∷ 0x8b ∷ 0x44 ∷ 0x18 ∷ 0xde ∷ 0x66 ∷ 0xe6 ∷ 0x11
    ∷ 0x92 ∷ 0x16 ∷ 0x99 ∷ 0xa3 ∷ 0x28 ∷ 0x12 ∷ 0x64 ∷ 0x61 ∷ 0xc0 ∷ 0xe5 ∷ 0x01 ∷ 0x16 ∷ 0x15
    ∷ 0x54 ∷ 0x65 ∷ 0x73 ∷ 0x74 ∷ 0x20 ∷ 0x53 ∷ 0x74 ∷ 0x72 ∷ 0x69 ∷ 0x6e ∷ 0x67 ∷ 0x20 ∷ 0x31
    ∷ 0x32 ∷ 0x33 ∷ 0x34 ∷ 0x35 ∷ 0x34 ∷ 0x33 ∷ 0x32 ∷ 0x31 ∷ 0xd6 ∷ 0x7c ∷ 0x13 ∷ 0xc7 ∷ 0xcb
    ∷ 0x6a ∷ 0xaf ∷ 0xff ∷ 0x06 ∷ 0xde ∷ 0x86 ∷ 0x76 ∷ 0x36 ∷ 0x65 ∷ 0x59 ∷ 0x07 ∷ 0x56 ∷ 0x40
    ∷ 0x28 ∷ 0x28 ∷ 0x01 ∷ 0xc3 ∷ 0x08 ∷ 0xa2 ∷ 0xeb ∷ 0xb2 ∷ 0xc5 ∷ 0x5f ∷ 0x83 ∷ 0xa8 ∷ 0xe2
    ∷ 0xa4 ∷ 0x26 ∷ 0xa5 ∷ 0x33 ∷ 0x20 ∷ 0xed ∷ 0x4d ∷ 0x42 ∷ 0x12 ∷ 0x4f ∷ 0x4d ∷ 0x01 ∷ 0xad
    ∷ 0x01 ∷ 0x0d ∷ 0x68 ∷ 0x72 ∷ 0xeb ∷ 0xd6 ∷ 0x7f ∷ 0x1a ∷ 0xc8 ∷ 0x31 ∷ 0x42 ∷ 0xdb ∷ 0x24
    ∷ 0xc3 ∷ 0x73 ∷ 0x00 ∷ 0xbc ∷ 0xe4 ∷ 0x1a ∷ 0x13 ∷ 0x8f ∷ 0x1e ∷ 0x2f ∷ 0xd1 ∷ 0x13 ∷ 0x24
    ∷ 0x43 ∷ 0xe9 ∷ 0x23 ∷ 0x8b ∷ 0xaf ∷ 0x3a ∷ 0x05 ∷ 0x4a ∷ 0x7c ∷ 0xd0 ∷ 0x32 ∷ 0xd6 ∷ 0xfe
    ∷ 0x2d ∷ 0x2e ∷ 0x00 ∷ 0x12 ∷ 0x9b ∷ 0x79 ∷ 0x9a ∷ 0x71 ∷ 0xee ∷ 0x3c ∷ 0xc0 ∷ 0xd2 ∷ 0x5e
    ∷ 0xc6 ∷ 0xc6 ∷ 0xa7 ∷ 0xf3 ∷ 0xc9 ∷ 0x5b ∷ 0xf7 ∷ 0x39 ∷ 0xa8 ∷ 0xc3 ∷ 0xed ∷ 0x16 ∷ 0xbd
    ∷ 0x58 ∷ 0x84 ∷ 0xe0 ∷ 0xe0 ∷ 0x12 ∷ 0x61 ∷ 0x4a ∷ 0x4f ∷ 0xdd ∷ 0x53 ∷ 0xb9 ∷ 0x8f ∷ 0x73
    ∷ 0x62 ∷ 0x2d ∷ 0x88 ∷ 0x77 ∷ 0x72 ∷ 0x9b ∷ 0xd5 ∷ 0xb1 ∷ 0x5e ∷ 0x04 ∷ 0x36 ∷ 0x6d ∷ 0x0e
    ∷ 0xee ∷ 0xa8 ∷ 0x0a ∷ 0x1f ∷ 0x70 ∷ 0x1c ∷ 0x3c ∷ 0x47 ∷ 0x62 ∷ 0x58 ∷ 0xf4 ∷ 0xd7 ∷ 0x33
    ∷ 0x88 ∷ 0xfe ∷ 0x2c ∷ 0x20 ∷ 0x70 ∷ 0x7b ∷ 0xd1 ∷ 0xff ∷ 0x25 ∷ 0xdc ∷ 0x07 ∷ 0xfb ∷ 0x0a
    ∷ 0x20 ∷ 0x9f ∷ 0x88 ∷ 0x59 ∷ 0xa3 ∷ 0x32 ∷ 0x98 ∷ 0x9a ∷ 0xe0 ∷ 0xb8 ∷ 0x1d ∷ 0x0b ∷ 0x45
    ∷ 0x57 ∷ 0xe8 ∷ 0x6c ∷ 0xd7 ∷ 0xce ∷ 0x0a ∷ 0x7a ∷ 0x5f ∷ 0x3f ∷ 0xc3 ∷ 0x20 ∷ 0xa4 ∷ 0xad
    ∷ 0x46 ∷ 0x38 ∷ 0xeb ∷ 0x96 ∷ 0xfb ∷ 0x16 ∷ 0xc1 ∷ 0xa7 ∷ 0xd3 ∷ 0xe3 ∷ 0xce ∷ 0xa8 ∷ 0x6b
    ∷ 0xcb ∷ 0x7a ∷ 0x24 ∷ 0x3a ∷ 0xce ∷ 0x11 ∷ 0x22 ∷ 0x86 ∷ 0xe1 ∷ 0xf4 ∷ 0xa6 ∷ 0x44 ∷ 0x81
    ∷ 0xa3 ∷ 0x4c ∷ 0x41 ∷ 0x00 ∷ 0x00 ∷ 0xa7 ∷ 0x41 ∷ 0x4c ∷ 0xd8 ∷ 0x9c ∷ 0x2d ∷ 0x28 ∷ 0x2b
    ∷ 0xac ∷ 0x9b ∷ 0x61 ∷ 0xed ∷ 0x5b ∷ 0xf3 ∷ 0x67 ∷ 0x9d ∷ 0x4b ∷ 0x66 ∷ 0xa5 ∷ 0xf6 ∷ 0xa7
    ∷ 0x41 ∷ 0x4c ∷ 0xd8 ∷ 0x9c ∷ 0x2d ∷ 0x28 ∷ 0x2b ∷ 0xac ∷ 0x9b ∷ 0x61 ∷ 0xed ∷ 0x5b ∷ 0xf3
    ∷ 0x67 ∷ 0x9d ∷ 0x4b ∷ 0x66 ∷ 0xa5 ∷ 0xf6 ∷ 0x00 ∷ 0xa6 ∷ 0xef ∷ 0x9e ∷ 0xa2 ∷ 0x35 ∷ 0x63
    ∷ 0x5e ∷ 0x32 ∷ 0x81 ∷ 0x24 ∷ 0xff ∷ 0x34 ∷ 0x29 ∷ 0xdb ∷ 0x9f ∷ 0x9e ∷ 0x91 ∷ 0xb6 ∷ 0x4e
    ∷ 0x2d ∷ 0x00 ∷ 0x00 ∷ 0x00 ∷ 0x00 ∷ 0x1b ∷ 0x04 ∷ 0x03 ∷ 0x0f ∷ 0x01 ∷ 0x01 ∷ 0x15 ∷ 0x04
    ∷ 0xa7 ∷ 0x41 ∷ 0x4c ∷ 0xd8 ∷ 0x9c ∷ 0x2d ∷ 0x28 ∷ 0x2b ∷ 0xac ∷ 0x9b ∷ 0x61 ∷ 0xed ∷ 0x5b
    ∷ 0xf3 ∷ 0x67 ∷ 0x9d ∷ 0x4b ∷ 0x66 ∷ 0xa5 ∷ 0xf6 ∷ 0x1b ∷ 0x04 ∷ 0x03 ∷ 0x10 ∷ 0x01 ∷ 0x01
    ∷ 0x15 ∷ 0x04 ∷ 0xa7 ∷ 0x41 ∷ 0x4c ∷ 0xd8 ∷ 0x9c ∷ 0x2d ∷ 0x28 ∷ 0x2b ∷ 0xac ∷ 0x9b ∷ 0x61
    ∷ 0xed ∷ 0x5b ∷ 0xf3 ∷ 0x67 ∷ 0x9d ∷ 0x4b ∷ 0x66 ∷ 0xa5 ∷ 0xf6 ∷ 0x75 ∷ 0x00 ∷ 0x00 ∷ 0x00
    ∷ 0x00 ∷ 0xf3 ∷ 0xd3 ∷ 0x08 ∷ 0x00 ∷ 0x00 ∷ 0x00 ∷ 0x00 ∷ 0x00 ∷ 0x00 ∷ 0x00 ∷ 0x00 ∷ 0x00
    ∷ 0x00 ∷ 0x00 ∷ 0x00 ∷ []
