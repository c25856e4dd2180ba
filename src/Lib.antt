-- ===== src/Lib.antt =====
-- A verification library of the ESP32 base firmware.
--
-- The firmware connects one device: keys on its pins, three serial lines, a configuration in flash, a
-- command console, a web server, a WebSocket server, and a cloud client. Bytes come in through the
-- receivers, which cut them into frames, lines or requests; commands and frames then change the
-- configuration or are handed on. The parts, by file:
--
-- - `Base` (with `Base.Lists`, `Base.Bytes`, `Base.Tests`): lists by native numbers, bytes and C
--   strings. A buffer is the list of its bytes, a pointer into it an index; what lies behind a string in
--   memory is an argument where the code can reach it.
-- - `Gpio`: the key scanner of components/h_gpio/h_gpio.c, a state machine on the levels read, and the rounds
--   of `task_gpio_thread` of main/main.c over the four keys.
-- - `MiniData`: `miniDataCreate` and `miniDataGet` of components/hxkong_yun/mini-data.c, the frame format.
-- - `Stream`: the receive loop over a cache of frames, for any handler; `Yun`: the cloud client's frames,
--   components/hxkong_yun/hxkong_yun.c (`dtrs_recv_data_callback`, `iotYunSend`, `actionSignIn` and the others).
-- - `HxTcp`: the cloud client's transport, `hxtcp_conn` of components/hxkong_yun/hxkong_tcp.c, as a state
--   machine on what the network does, with `yun_init` and `yun_app_start`; what it hands on goes to `Yun`.
-- - `Uart`: `uart_debug_read`, `uart1_read`, `uart2_read` and `cfgInit` of main/trans_data.c;
--   `Uart.Driver`: the tasks of components/uart_debug/uart0.c, components/uart1/uart1.c and
--   components/uart2/uart2.c that call them, and behind the console `do_command`.
-- - `TimerGroup`: the interrupt handler, the queue and the task of components/timer/timer_group.c.
-- - `UrlCodec`: the URL codec of components/http/zhHttp.c and the hex codecs of main/sbufhex.c and
--   components/websocket/websocket.c. `Text`: the trims, the header search and the URL splitters.
-- - `WebSocket`: components/websocket/websocket.c, the framings and the scan for a frame;
--   `WebSocket.Handshake`: its handshakes, over SHA-1, MD5 and Base64 as parameters; `WebSocket.Serv`:
--   websocket_serv.c.
-- - `Http`: the request reader of components/http/http_serv.c; `WebServer`: components/http/webserver.c;
--   `Pages`: the pages behind it, `pfWebServ_Callback` of main/trans_data.c, with the
--   filling of the data page, and the answers' texts;
--   `Query`: the readers of a query string, `urlGetParameter` and `zhHttpGetParameter`.
-- - `TcpServ`: components/tcpserv/tcpserv.c, which tcpserv2.c repeats.
-- - `HttpClient`: the HTTP client of components/http/zhHttp.c, its requests and receiving loops over what
--   the socket returns; `HttpClient.Thread`: whole runs of its threads.
-- - `UrlParser`: `url_parse` and `replace_str` of components/http/url_parser.c; `ParserClient`: the other
--   HTTP client, components/http/http.c, by the resources it takes and gives back.
-- - `ZhList`: components/zhlist/zhlist.c, the doubly linked list on a heap of node fields;
--   `ZhList.Elements`: zhlist_exp.c. Addresses that `calloc` returns are arguments, what is freed is a result.
-- - `Config`: the setters of main/trans_data_a.c, over a flash driver that is a parameter; `Command`:
--   `do_command` of main/cfg.c and the `cmd_` functions of main/trans_data.c.
-- - `SpiData`: components/spi_data/spi_data.c over the SDK's flash calls, and the relay state of
--   main/trans_data_a.c.
-- - `Start`: `initFactoryCfgFlash` of main/cfg.c over cJSON, and `app_main` and `event_handler` of main/main.c.
-- - `Device`: the answers to a search for the device and its MQTT client, main/trans_data.c and
--   main/trans_data_a.c, with the rounds of components/udp_multicast/udp_multicast.c; `Mcast`: the task of
--   that file, socket after socket.
-- - `EventEngine`: the event groups of components/espressif/event.c.
-- - `HalI2c`: the transfers of components/hal/hal_i2c.c over the SDK's driver.
-- - `Wifi`: the strings that components/espressif/wifi.c hands to the SDK; `SmartConfig`: the two
--   handlers of main/smartconfig.c.
-- - `Scene`: `scmpBuf`, `print16` and `strToHex` of main/scene_proc.c.
-- - `Tests`: the theorems at concrete inputs.
--
-- State is passed explicitly: a record for the globals of a component, and one function for each handler
-- or round of a task. Calls out (`close`, `write`, a callback, a restart) are a list of effects, in order.
-- A fault (a NULL dereference, a copy of a negative length, a write past an array on the stack, past a
-- string of the flash record or past the page of data) is `none`, or the stage `broken` of an HTTP thread.
-- A write past a global array makes the list longer. A fixed-width integer has its wrap-around written out.
--
-- Fuel: the receive loop gets one round more than the bytes held, since each round that goes on takes at
-- least one; the walks over a linked list get one more than its count; the scan for 0xFF gets two more
-- than the bytes it may look at. `none` is the fuel's end in these. `scmpBuf` gets one round more than the
-- buffer's length; more of it changes nothing. The start of the device gets a unit for each boot.
--
-- Not modelled: tasks running at once (a round of a task is one step), time, the SDK, what the driver calls
-- do beyond their result, printed messages, and the sizes of the web server's buffers for a URL, its page and
-- its parameters. The cloud client's hosts are taken to be found. The next alarm of a timer is computed in
-- floating-point numbers, and is a parameter. Copies of other projects (espmqtt, SHA-1, MD5, Base64) are not modelled, nor
-- is http_parser, which is not in the repository.
pub mod Base
pub mod Command
pub mod Config
pub mod Device
pub mod EventEngine
pub mod Gpio
pub mod HalI2c
pub mod Http
pub mod HttpClient
pub mod HxTcp
pub mod Mcast
pub mod MiniData
pub mod Pages
pub mod ParserClient
pub mod Query
pub mod Scene
pub mod SmartConfig
pub mod SpiData
pub mod Start
pub mod Stream
pub mod TcpServ
pub mod Tests
pub mod Text
pub mod TimerGroup
pub mod Uart
pub mod UrlCodec
pub mod UrlParser
pub mod WebServer
pub mod WebSocket
pub mod Wifi
pub mod Yun
pub mod ZhList
