-- ===== src/Lib.antt =====
-- ESPHome on Zephyr: a device that offers switches, sensors and buttons to Home Assistant over the
-- native API of ESPHome, and takes updates over the air. All the code is C under
-- subsys/net/lib/esphome, and the paths below start there, at components/ or include/esphome/.
--
-- The parts. A thread of components/api/rpc/esphome_rpc.c accepts connections, reads requests and calls
-- the handler of each, a function NAMECb. The handlers of components/api/api.c answer by the Write
-- functions of esphome_rpc.c, and find the entity that a command is for by its key, in the registry of
-- components/api/entity.c. A switch is commanded through the interface of
-- include/esphome/components/switch.h, which the two drivers of components/switch implement on pins. A
-- second thread, of components/sensor/sensor.c, reads every sensor once a second and sends what it read
-- over the connection of the first. A third one, of components/ota/esphome_ota.c, takes an image and
-- writes it to the flash. Where the device is on WiFi, components/wifi chooses the network and connects
-- again after a failure; where it is on Thread, components/openthread announces it.
--
-- The files.
--   Prelude: comparisons as tests, lists over native numbers, strings of bytes, `&`, `|` and `^` as
--     arithmetic, and what C functions return (Code).
--   Rpc/Socket: the socket and the heap as the code uses them. Every definition over them is about any
--     such socket.
--   Rpc/Varint: varint_encode (varint_loop, put) and read_decode_varint (round, read_loop).
--   Rpc/Header: esphome_header_size, esphome_encode_header, esphome_read_header.
--   Rpc/Messages: the 120 messages, in twelve families. Of each message: whether its Read function
--     decodes a payload (read_shape), the number and the kind of its Write function (write_form), and
--     its case in the switch of esphome_read_request (cases, dispatch).
--   Rpc/Service: the Write functions (message_write), the Read functions (message_read),
--     esphome_read_request (read_request) and the loop over the requests of a connection (serve).
--     Rpc/Service/Contract: what this loop promises (session), over any handlers.
--   Rpc/Listen: esphome_rpc_service (rpc_service): the socket that listens (start_listening) and the loop
--     over the connections (accept_loop).
--   Entity: components/api/entity.c: fnv1_hash, esphome_entity_init, find_device_entity_by_key,
--     _string_copy_safe; and esphome_init of components/api/service.c.
--   Api/Base, Api: the handlers of components/api/api.c, each under its own name (hello_request_cb is
--     HelloRequestCb), the three list_entity functions, and all handlers as the callback of
--     Rpc/Service (api_callback). Api/Version: _esphome_get_version. Api/Pin: the handlers over a device
--     with pins in the shared state.
--     Api/Device: the contract of the device (respond): the responses to each request, as a function of
--     the state of its switches and buttons. Api/Shows, Api/Answers, Api/Contract: the handlers against it.
--   Sensor: components/sensor and include/esphome/components/sensor.h: the two drivers,
--     esphome_sensor_send_state and the rounds of esphome_sensor_service.
--   Threads: the descriptor of the connection that the threads of the API and of the sensors share
--     (rpc_data->socket), as the calls of zsock_accept and zsock_close move it. Threads/Frames: the calls
--     of the Write functions of two threads, in any order (run); Threads/Alone ties them to the
--     Write functions.
--   Ota/Base, Ota: the functions of esphome_ota.c up to esphome_ota_run (ota_run), over any socket and
--     flash writer. A part of a run is a function from the state to a result and a state, and the
--     state records what was sent and written, and the calls of boot_request_upgrade and sys_reboot. Ota/Codes: the codes it
--     returns. Ota/Stream, Ota/Greeting, Ota/Round, Ota/Image and
--     Ota/Update: a run with a client that has sent a whole update. Ota/Service: esphome_ota_service
--     (ota_service), which listens as in Rpc/Listen.
--   Switch: switch.h over any driver. Switch/Pins: components/switch/gpio.c (gpio_switch) and
--     components/switch/hbridge.c (hbridge_switch), over any pins. Switch/Pins/Bridge,
--     Switch/Pins/Shorts: the pins of a bridge at every moment (watched). Switch/Pins/Pulse: the pins
--     at every k_sleep (napping).
--   Wifi: components/wifi/wifi_credentials.c. Wifi/Connection: components/wifi/wifi.c, as steps: the
--     events of the network manager, and the delayed work.
--   Openthread: components/openthread: ot_srp_init, and the changes of the role that call it.
--   Tests: runs of the code, and the theorems at concrete inputs.
--
-- How C is read. An int that a function returns is a Code: a number, or a negated constant of errno.h,
-- which is negative and not 0. Numbers of w bits keep their `% 2 ^ w`. A uint8_t that starts
-- uninitialised is an argument, and one argument stands for it in all the calls of read_decode_varint in
-- esphome_read_request and in the loops over it. The sums of two size_t in the Write functions have no
-- bound: they are exact below 4 GiB. `char` may be signed or not in fnv1_hash. size_t has 32 bits in
-- esphome_ota.c. The components of switches and buttons are configured in.
--
-- Bounds. read_decode_varint has ten rounds, as many as bytes of seven bits make 64 bits; to run out of
-- them (`unfinished`) is no result of the code. The first loop of esphome_read_header and the loops over
-- the requests and over the connections have no bound in the code: they take one as an argument, and to
-- run out of it (`waiting`, `blocked`) is no result of the code either. So does the loop of
-- esphome_sensor_service. The loops of esphome_ota_run take one as well (`stuck`). They need a round for
-- every chunk and for every block, so that the bytes and the blocks of the image together are enough,
-- for an image at least 16384 bytes below 2^32: close to 2^32, size_acknowledged may wrap.
--
-- Not modelled. The codec that protobuf-c generates (api.pb-c.c) is a parameter: unpack, packed size
-- and pack of each message, and the fields of its structs that the handlers read and set; so are
-- Zephyr's sockets, heap, flash writer, pins, sensors, clock and k_sleep, and OpenThread. The Dump
-- functions print messages for debugging. Logging has no effect here. The device-tree macros that
-- define the devices, the start-up threads of components/esphome.c, the fakes of the GPIO driver and
-- the antenna of the Zeus board, a copy of the driver of another board, are not modelled. MD5 and
-- password checks are not in the code of the update. The threads of the API, of the sensors and of the
-- update are modelled one by one; of their interleavings the descriptors are, and the Write functions of
-- two threads, with zsock_send as one step, for which three turns a message are enough.
pub mod Prelude
pub mod Rpc
pub mod Entity
pub mod Ota
pub mod Switch
pub mod Wifi
pub mod Api
pub mod Sensor
pub mod Threads
pub mod Openthread
pub mod Tests
